-- ===== src/Rpleth/Server/Clients/Tracking.antt =====
-- Which clients can be marked as failed.
use access_control.Prelude.{
  ◌≡◌, refl, sym, ap, subst, ◌∙◌, Bool, true, false, Bool-cases, not, ◌&&◌, ◌||◌, Bytes, bytes_eq,
  bytes_beq_iff, ◌==◌, is_empty, any, any-append, List, [], ◌∷◌, ◌++◌, Option, none, some, lookup,
  insert, lookup-insert, erase_key, lookup-erase_key, ok, err, bind-ok, ok_injective, if◌then◌else◌,
  inl, inr, arith, ℕ, suc,
}
use access_control.Rpleth.Protocol.{encode_command}
use access_control.Rpleth.Ring.{CircularBuffer, new_buffer, write}
use access_control.Rpleth.Server.{RplethModule, NetConfig, ReaderCommand}
use access_control.Rpleth.Server.Answers.{handle_client_msg_ends}
use access_control.Rpleth.Server.Clients.{
  RplethServer, is_there, client_connected, client_failed, remove, came_or_went, publish_to,
  publish_cards, badge, rpleth_publish_card, card_convert_from_text, SocketResult, with_client,
  handle_socket,
}

-- Every client that failed is connected.
abbrev pub IsTracked : RplethServer → Type 0
IsTracked s = (id : Bytes) → client_failed id s ≡ true → client_connected id s ≡ true

abbrev has : Bytes → List Bytes → Bool
has id failed = any (λ c. c == id) failed

has-remove :
    (identity id : Bytes) (cs : List Bytes)
    → has id (remove identity cs) ≡ (if identity == id then false else has id cs)
has-remove identity id [] = ground arith
has-remove identity id (c ∷ cs) = ground (
  arith,
  bytes_beq_iff c identity,
  bytes_beq_iff identity id,
  bytes_beq_iff c id,
  has-remove identity id cs,
)

dropped :
    (identity id : Bytes) (failed : List Bytes)
    → has id (if has identity failed then remove identity failed else failed)
      ≡ (if identity == id then false else has id failed)
dropped identity id failed = elim (Bool-cases (has identity failed)) [
  | inl marked ↦ rw marked (has-remove identity id failed)
  | inr unmarked ↦ rw unmarked (elim (Bool-cases (identity == id)) [
    | inl same ↦
        rw same (ap (λ k. has k failed) (sym ((bytes_beq_iff identity id).0 same)) ∙ unmarked)
    | inr other ↦ rw other refl
  ])
]

-- What an equation about a test on keys leaves.
unless_same :
    (b x y : Bool)
    → (x ≡ true → y ≡ true)
    → (if b then false else x) ≡ true
    → (if b then false else y) ≡ true
unless_same b x y f h = ground arith

there_insert :
    (identity id : Bytes) (cb : CircularBuffer) (clients : List (Bytes × CircularBuffer))
    → is_there (lookup id (insert identity cb clients))
      ≡ (if identity == id then true else is_there (lookup id clients))
there_insert identity id cb clients = ground (arith, lookup-insert identity id cb clients)

there_erase :
    (identity id : Bytes) (clients : List (Bytes × CircularBuffer))
    → is_there (lookup id (erase_key identity clients))
      ≡ (if identity == id then false else is_there (lookup id clients))
there_erase identity id clients = ground (arith, lookup-erase_key identity id clients)

came_or_went-IsTracked :
    (identity : Bytes) (s : RplethServer) → IsTracked s → IsTracked (came_or_went identity s)
unfolding came_or_went
came_or_went-IsTracked identity s tracked id = elim (Bool-cases (client_connected identity s)) [
  | inl gone ↦ rw gone (λ h.
      there_erase identity id s.clients
      ∙ unless_same (identity == id) _ _ (tracked id)
          (sym (dropped identity id s.failed_clients) ∙ h))
  | inr came ↦ rw came (λ h.
      there_insert identity id (new_buffer 8192) s.clients ∙ (let t = tracked id h in ground arith))
]

has-mark :
    (id identity : Bytes) (failed : List Bytes) (done : Bool)
    → has id (if done then failed else failed ++ identity ∷ [])
      ≡ (has id failed || (not done && (identity == id)))
has-mark id identity failed true = ground arith
has-mark id identity failed false = any-append (λ c. c == id) failed (identity ∷ []) ∙ ground arith

marked_or_there :
    (x done b : Bool) (cb : CircularBuffer) (o : Option CircularBuffer)
    → ((x || (not done && b)) || is_there o) ≡ true
    → (x || is_there (if b then some cb else o)) ≡ true
marked_or_there x done b cb o h = ground arith

or_left : (x y : Bool) → x ≡ true → (x || y) ≡ true
or_left x y h = ground arith

through : (p x y : Bool) → (p || y) ≡ true → (p ≡ true → (x || y) ≡ true) → (x || y) ≡ true
through p x y h f = ground arith

from_either : (x y : Bool) → (x || y) ≡ true → (x ≡ true → y ≡ true) → y ≡ true
from_either x y h f = ground arith

same_or_there :
    (x done b y : Bool)
    → (x || (not done && b)) ≡ true
    → (x ≡ true → y ≡ true)
    → (if b then true else y) ≡ true
same_or_there x done b y h f = ground arith

module _ (W : Type 0) (send : Bytes → Bytes → W → Bool × W) where
  publish_to-has :
      (id bytes : Bytes) (clients : List (Bytes × CircularBuffer)) (failed : List Bytes) (w : W)
      → has id (publish_to W send bytes clients failed w).0 ≡ true
      → (has id failed || is_there (lookup id clients)) ≡ true
  publish_to-has id bytes [] failed w h = ground arith
  publish_to-has id bytes ((identity, cb) ∷ clients) failed w h =
      let (done, after) = send identity bytes w in
      let rest =
        publish_to-has id bytes clients (if done then failed else failed ++ identity ∷ []) after
          h in
      marked_or_there (has id failed) done (identity == id) cb (lookup id clients) (
        ap (λ x. x || is_there (lookup id clients)) (sym (has-mark id identity failed done)) ∙ rest)

  publish_cards-has :
      (id : Bytes) (cards : List (Bytes × ℕ)) (clients : List (Bytes × CircularBuffer))
      (failed after : List Bytes) (w w1 : W)
      → publish_cards W send cards clients failed w ≡ ok (after, w1)
      → has id after ≡ true
      → (has id failed || is_there (lookup id clients)) ≡ true
  unfolding publish_cards
  publish_cards-has id [] clients failed after w w1 h marked =
      let same = ap (λ x. has id x.0) (ok_injective h) in
      or_left (has id failed) (is_there (lookup id clients)) (same ∙ marked)
  publish_cards-has id (card ∷ cards) clients failed after w w1 h marked =
      let (bytes, made, more) = bind-ok (card_convert_from_text card) _ (after, w1) h in
      let before = publish_cards-has id cards clients _ after _ w1 more marked in
      through _ (has id failed) (is_there (lookup id clients)) before
        (publish_to-has id (encode_command (badge bytes) 64) clients failed w)

  pub rpleth_publish_card-IsTracked :
      (s after : RplethServer) (w w1 : W)
      → IsTracked s
      → rpleth_publish_card W send s w ≡ ok (after, w1)
      → IsTracked after
  unfolding rpleth_publish_card
  rpleth_publish_card-IsTracked s after w w1 tracked h =
      let ((failed, w2), ran, last) =
        bind-ok (publish_cards W send s.state.cards_read_stream s.clients s.failed_clients w) _
          (after, w1) h in
      subst IsTracked (ap (λ x. x.0) (ok_injective last)) (λ id marked.
        from_either _ _ (publish_cards-has id _ s.clients s.failed_clients failed w w2 ran marked)
          (tracked id))

  module _ (reader : ReaderCommand → W → W) (network_config : W → NetConfig)
      (push_network_config : NetConfig → W → Bool × W) (restart : W → W)
      (to_string : ℕ → Bytes) where
    -- The clients that failed are connected; an exception is about a client that is not.
    abbrev pub AllTracked :
        Bytes
        → RplethServer
        → SocketResult W send reader network_config push_network_config restart to_string
        → Type 0
    AllTracked identity s none = ⊥
    AllTracked identity s (some (err e)) = client_connected identity s ≡ false
    AllTracked identity s (some (ok (after, sent, w))) = IsTracked after

    served-IsTracked :
        (identity : Bytes) (s : RplethServer) (alive : Bool) (cb : CircularBuffer)
        (m : RplethModule)
        → IsTracked s
        → IsTracked (record s {
          state = m;
          clients = insert identity cb s.clients;
          failed_clients = if alive then s.failed_clients else s.failed_clients ++ identity ∷ [];
        })
    served-IsTracked identity s alive cb m tracked id marked =
        there_insert identity id cb s.clients
        ∙ same_or_there (client_failed id s) alive (identity == id) (client_connected id s)
            (sym (has-mark id identity s.failed_clients alive) ∙ marked) (tracked id)

    with_client-AllTracked :
        (identity content : Bytes) (s : RplethServer) (w : W) (o : Option CircularBuffer)
        → lookup identity s.clients ≡ o
        → IsTracked s
        → AllTracked identity s (
            with_client W send reader network_config push_network_config restart to_string identity
              content s w o)
    unfolding with_client
    with_client-AllTracked identity content s w none e tracked = ap is_there e
    with_client-AllTracked identity content s w (some cb) e tracked =
        let filled = (write cb content).1 in
        let ((alive, cb1, m, sent, w1), done) =
          handle_client_msg_ends W reader network_config push_network_config restart to_string send
            (suc filled.to_read) identity filled s.state w (omega arith) in
        rw done (served-IsTracked identity s alive cb1 m tracked)

    all_if :
        (identity : Bytes) (s : RplethServer) (b : Bool)
        (x y : SocketResult W send reader network_config push_network_config restart to_string)
        → AllTracked identity s x
        → AllTracked identity s y
        → AllTracked identity s (if b then x else y)
    all_if identity s true x y f g = f
    all_if identity s false x y f g = g

    -- Where the clients marked as failed are connected, whatever comes from the socket is handled and
    -- leaves this so; only bytes of a client that did not connect stop the module.
    pub handle_socket-AllTracked :
        (identity content : Bytes) (s : RplethServer) (w : W)
        → IsTracked s
        → AllTracked identity s (
            handle_socket W send reader network_config push_network_config restart to_string
              identity content s w)
    unfolding handle_socket
    handle_socket-AllTracked identity content s w tracked =
        all_if identity s (is_empty content) _ _ (came_or_went-IsTracked identity s tracked) (
          all_if identity s (client_failed identity s) _ _ tracked
            (with_client-AllTracked identity content s w (lookup identity s.clients) refl tracked))
