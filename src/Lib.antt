-- ===== src/Lib.antt =====
-- Leosac, access control software: who may pass which door and when, and who may change that.
--
-- A reader publishes the card or the code it has read on the bus. The authentication instance
-- turns the message into a credential, looks up its owner, builds the profile that the mappings of
-- the configuration give it, asks the profile about its door at this moment, and publishes GRANTED
-- or DENIED. The doorman sends the commands of its configuration to a door, which reach the pin of a
-- lock, keeps doors as their schedules want, and raises alarms. Users of the API act through a security context that decides each action. The rpleth
-- module offers cards to old clients on a binary protocol, over a ring buffer.
--
--   Schedule: src/tools/SingleTimeFrame.{hpp,cpp} and src/tools/Schedule.cpp. A time point is a
--   count of ticks; `std::localtime` is a parameter that yields the fields the code reads.
--   Access.Validity: src/core/auth/ValidityInfo.cpp. Access.Profile: src/core/auth/
--   SimpleAccessProfile.cpp and ProfileMerger.cpp. Access.Mapper: the part of
--   src/modules/auth/auth-file/FileAuthSourceMapper.cpp that answers a request. Access.Source:
--   src/core/auth/AuthSourceBuilder.cpp. Access.Instance: AuthFileInstance.cpp beside the mapper.
--   The JSON text of a credential and the audit event in the database are parameters that may fail.
--   Credentials: src/core/credentials/RFIDCard.cpp and PinCode.cpp.
--   Security: src/core/SecurityContext.cpp and UserSecurityContext.cpp; Security.Database has the
--   ranks, the actions and the objects they are about. The database is a parameter:
--   a record of what its look-ups yield.
--   Rpleth.Ring: src/modules/rpleth/network/circularbuffer.cpp. Rpleth.Protocol: rplethpacket.cpp
--   and rplethprotocol.cpp beside it. Rpleth.Server: src/modules/rpleth/RplethModule.cpp, with the
--   reader, the kernel's network configuration and the socket as parameters; Rpleth.Server.Clients is its
--   table of clients; Rpleth.Server.Answers and the modules below Clients hold proofs.
--   Remote: src/core/RemoteControlSecurity.cpp and the dispatch of RemoteControl.cpp beside it;
--   Remote.Exceptions and Remote.Permitted hold proofs.
--   Modules: src/core/module_manager.cpp; Modules.Levels and Modules.Starting hold proofs.
--   Wiegand: src/modules/wiegand/WiegandReaderImpl.cpp and the strategies beside it. Wiegand.Simple is
--   SimpleWiegandStrategy, Wiegand.PinNBits is WiegandPinNBitsOnly, Wiegand.PinBuffered is
--   WiegandPinBuffered, Wiegand.CardAndPin is WiegandCardAndPin over the first two,
--   and so is Wiegand.Autodetect. The other modules
--   of Wiegand hold proofs. `std::to_string` is a parameter.
--   Gpio: src/hardware/facades/FGPIO.cpp, what modules ask of a pin, and src/tools/timeout.hpp.
--   Gpio.Piface, Gpio.Sysfs and Gpio.Libgpiod: PFDigitalPin.cpp, SysFSGPIOPin.cpp and LibgpiodPin.cpp
--   under src/modules, with the loop of their modules. Gpio.Pulse, Gpio.Silent and Gpio.Timeout hold
--   proofs. Alarms: src/modules/alarms/AlarmInstance.cpp and AlarmEntry.cpp, and
--   src/hardware/facades/FAlarm.cpp. Doors: src/core/auth/AuthTarget.cpp and DoormanDoor.cpp of
--   src/modules/doorman; Doors.Actions and Doors.Module are DoormanInstance.cpp and
--   DoormanModule.cpp beside it, the other modules of Doors hold proofs that also run down to a pin
--   or an alarm. The board, the file or the line behind a pin is a parameter.
--   Services: src/tools/service/ServiceRegistry.hpp. Registry: src/tools/registry/Registry.hpp.
--   Tasks: src/core/Scheduler.cpp and src/core/tasks/Task.cpp; what a task does is data.
--   WebApi: src/modules/websock-api/api/APISession.cpp and APIAuth.cpp, and dispatch_request of
--   WSServer.cpp beside that directory. Reading a token again, the password check and the validity
--   of an account are parameters. WebApi.Sessions and WebApi.Rights hold proofs.
--   Examples: concrete data, and runs of the theorems on it.
--
-- An exception is a value of `Failure` that says which class was thrown; a failed assertion is
-- `aborted`. Every loop is by recursion on a list or a counter, but the one
-- over a client's bytes in Rpleth.Server: it has as much fuel as there are bytes and one more. Texts are
-- lists of bytes, and a std::map is an association list.
--
-- Not modelled: the loading of the XML files, the API handlers, the kernel and the other modules;
-- sockets, devices, the database, logging. Of threads, only the order in which they put tasks in a
-- queue is.
pub mod Prelude
pub mod Schedule
pub mod Access
pub mod Credentials
pub mod Security
pub mod Gpio
pub mod Alarms
pub mod Doors
pub mod Services
pub mod Registry
pub mod Tasks
pub mod Modules
pub mod Remote
pub mod Rpleth
pub mod Wiegand
pub mod WebApi
pub mod Examples
