-- ===== src/Lib.antt =====
-- A driver extension for the wired Xbox One controller, whose USB interface is vendor specific. It
-- has three classes, each an object of DriverKit with its stored variables, the `ivars`:
-- XboxOneDevice matches the USB device and sets its configuration, which makes the controller's
-- interface appear; XboxOneInputInterface matches that interface, opens its two interrupt pipes and
-- passes the packets that arrive on to the system as HID reports; XboxOneUserClient is what a
-- program on the host calls to enable and disable the interface.
--
-- The files, and the code that they are about (paths under XboxControllerDriver/):
--   Base      shared: native numbers, lists, and the monad of the code.
--   Kit       Shared/USBPipeData.h and the result codes.
--   Packets   XboxOne/XboxOneInputPackets.h: a struct is a record, `…_bytes` is its layout.
--   Descriptor
--             XboxOne/XboxOneDescriptors.h, byte by byte. Descriptor/Gamepad compares it with the
--             structs, by the reader of HID descriptors in Hid, which follows the HID
--             specification 1.11, sections 6.2.2 and 8, for the items that the descriptor has; logical
--             ranges, signs and null values (sections 5.10 and 6.2.2.7) are in Hid/Values.
--   Input     XboxOne/XboxOneInputInterface.cpp. State: the `ivars`, the events, the frameworks.
--             Startup: `init`, `Start`, `InitDescriptors`, `InitPipes`, `handleStart`; Startup/Owned
--             follows what they take, up to `free`. Setup:
--             `SetupPipe`, `SetupPipes`. Send: `SendInterruptData`. Receive: `RequestAsyncInterruptData`,
--             `HandleReportGeneric`, `HandleControllerReport`, `HandleGuideReport`, `GotData`,
--             `SetEnable`. Session: runs of completed transfers and licensing calls. Shutdown:
--             `Stop` and its block, `free`. Debug: `DebugPrintButtonPacket`. Strings: `CopyStringAtIndex`. Description:
--             `newDeviceDescription`, `newReportDescriptor`, and Shared/HIDConstants.h. Service:
--             the data path as a step relation, without pipes, buffers and references.
--   Client    XboxOne/XboxOneUserClient.cpp: `init`, `Start`, `SetInputInterface`, `Stop`, `free`
--             (Lifecycle, with `NewUserClient` of the interface), and `ExternalMethod`,
--             `StaticHandleLicensing`, `HandleLicensing` (Licensing).
--   Device    XboxOne/XboxOneDevice.cpp: `init`, `Start`, `Stop`, `free`.
--   Interface XboxOne/XboxOneInterface.cpp: `init`, `Start`, `handleStart`, `Stop`, `free`. No target
--             builds this file.
--   Tester    UserClientTester/main.cpp (beside XboxControllerDriver/): `main`, which looks for the
--             service and calls the licensing method. Tester/Enables has the program, the user client
--             and the interface together.
--   Tests     inputs at which the theorems apply.
-- A function of the code has its name in snake case here; what follows a test with an early return
-- is the `else` of the test, and a `goto Exit` is the code at the label.
--
-- How the code is modelled. A function is a map from the state to an optional pair of a result and
-- a state, `M S A`. The result `none` is undefined behaviour: a null pointer that is dereferenced,
-- or a copy or write beyond the memory that it goes to; so a theorem that ends in `some …` says
-- that there is none. The state has a log of what the driver has done to its environment, latest
-- first. DriverKit, USBDriverKit and HIDDriverKit are not part of the repository: they are the
-- parameters `Env`, `DescriptionEnv`, `ClientEnv`, `DeviceEnv`, `CoreEnv` and `TesterEnv`, functions that answer a call by its
-- arguments and by the log, so that no answer is fixed in advance. What a theorem needs of them is a
-- hypothesis:
-- `IsDocumented` (buffers that are created exist, a mapping has the length that it tells),
-- `LeavesPointers` (a call that fails to create an object does not change the pointer for it),
-- `HasStrings` (a string descriptor has the characters that its length counts), `StartsByHandle`
-- (the superclass' `Start` calls `handleStart`), `CreatesClients` (`Create` gives
-- initialised clients), `ChecksArguments` (the superclass'
-- `ExternalMethod` checks the counts and then calls), `KeepsOutput` and `Delivers` (a call over
-- IOKit ends, and reaches the user client).
--
-- Numbers. A byte of a buffer is a number, the buffer its list, from the mapped address on; its
-- length is what the mapping tells, and never assumed to be more. The counter of packets is kept
-- modulo 2 ^ 8 and the length of a request modulo 2 ^ 32, as in the code. Pointers are numbers, a
-- null pointer is `none`. The loop over the endpoints is a recursion over the list of descriptors
-- that `IOUSBGetNextEndpointDescriptor` walks, and the loop over the characters of a string one on
-- the number of rounds that its bound leaves; there is no fuel.
--
-- Not modelled: log messages, but for the line of a button packet in debug builds; `Start` of the
-- superclass, which is an argument; code that is commented out; the app SimpleDriverLoader, in Swift,
-- which asks the system to install the extension; the property lists and the build files.
pub mod Base
pub mod Packets
pub mod Hid
pub mod Descriptor
pub mod Kit
pub mod Input
pub mod Client
pub mod Device
pub mod Interface
pub mod Tester
pub mod Tests
