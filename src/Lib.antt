-- ===== src/Lib.antt =====
-- Verification library for the zenux services: the daemons that give measuring modules access to
-- the error calculators, the adjustment memories and the signal processor of a device.
--
-- The parts, and the files that model them:
-- - Prelude: shared names, lists, Boolean tests, bits of words (Prelude/Bits), texts as lists of
--   codes (Prelude/Text), signed integers (Prelude/Int), maps and sets of numbers (Prelude/Maps).
-- - Scpi: the answers of zenux-service-common/lib/scpi-interfaces and the fields of a
--   `ProtonetCommand`. The SCPI parser, `QString::toInt` and `toULong` are fields of `ScpiLib`.
-- - Notifier: `NotificationValue` of zenux-service-common/lib/async-notifications.
-- - Settings: the settings of a measuring channel, of zenux-service-common/lib/settings/sensesettings.h.
-- - Hotplug: the controllers on the plugs of clamps. Hotplug/Container models
--   `HotPluggableControllerContainer` of zenux-service-common/lib/micro-controller-io, Hotplug/Commands
--   and Hotplug/Hex `HotplugControllerInterface` of zenux-service-common/lib/scpi-interfaces. The
--   controllers on the I2C bus are a function that may answer.
-- - Clamp: `cClampInterface` of zenux-service-common/lib/scpi-interfaces/clampinterface.cpp; what the
--   EEPROM of a clamp answers is a parameter.
-- - Client: the side of the clients, zenux-service-interfaces/lib. Client/Messages models the numbers of
--   messages and `cInterfacePrivate`, Client/Pcb the calls of `cPCBInterfacePrivate` and what their
--   answers become, Client/Ecalc and Client/Rm the interfaces of sec1000d and of the resource manager,
--   Client/VarGroup the groups of variables of zenux-service-interfaces/lib/dsp, and
--   Client/Proxy `ProxyPrivate`, by which clients share connections. What `new` and
--   `createUuid` give is an argument, not in use yet.
-- - Sec: the daemon sec1000d. Sec/Channel and Sec/Commands model `SecChannel`
--   (sec1000d/lib/scpi-interfaces/secchannel.cpp): one function per SCPI handler, with the channel, the
--   device node and the answer in its result. Sec/Conf holds the words that SYNC, MUX and CMDID write.
--   Sec/Allocation models `SecMainAndChannelInterface`, the pool of the channels, and Sec/Interrupts
--   the interrupt handler of sec1000d/lib/sec1000d.cpp. The kernel driver is a parameter
--   (Sec/Device), with the laws of a register file where a theorem needs them.
-- - Eeprom: `EepromI2c24LCxxx` of i2ceeprom/lib. Eeprom/Bus has the I2C transfers as a parameter and the
--   chip as laws from its data sheet, Eeprom/Driver the loops.
-- - Adjustment: `AdjustmentEepromReadWrite` of zenux-service-common/lib/adjustment, on an abstract
--   memory; Adjustment/Memory shows that the EEPROM driver is one. `qChecksum` and the file system
--   of the cache are parameters.
-- - Dsp: the daemon zdsp1d. Dsp/Clients models `ZDspClientContainer`, Dsp/Interrupts its dispatch of
--   interrupts, Dsp/Upload the way of the command lists to the processor (zdsp1d/lib/zdspserver.cpp), over
--   Dsp/DeviceInOut,
--   Dsp/Table and Dsp/Words the commands of zdsp1d/lib/dspapi.cpp, Dsp/Resolver and Dsp/Compiler the
--   command compiler of zdsp1d/lib/dspvarresolver.cpp and dspcmdcompiler.cpp, and Dsp/Layout
--   `ZdspClient::calcVarAdressesAndSizes` with the loop of zdsp1d/lib/zdspserver.cpp over the clients.
--   The keyword parser and the number parsers of Qt are parameters of the compiler.
--   Dsp/DeviceInOut models the reading and writing of variables in zdsp1d/lib/dspvardevicenodeinout.cpp.
-- - Pcb: the notifiers of `PCBServer` of zenux-service-common/lib/scpi-interfaces/pcbserver.cpp, and the
--   subscriber handlers of zenux-service-common/lib/scpi-protobuf. What a query names is a parameter.
-- - Tests: each theorem at concrete values.
--
-- The channels of Sec report to Notifier; the pool of Sec/Allocation calls `free` of Sec/Channel, and
-- the interrupt handler its `set_int_reg`; Adjustment calls Eeprom through the record `AdjMemory`;
-- Dsp/Interrupts looks its clients up in the tables of Dsp/Clients, and Dsp/Compiler its variables in
-- the table of Dsp/Resolver and its commands in Dsp/Table; Hotplug and Clamp read the plug bits of
-- Settings; Client/Pcb sends and decodes by Client/Messages; the texts of Client/VarGroup are those that
-- Dsp/DeviceInOut takes apart, and the other way round.
--
-- Numbers are natural numbers with the wrap-around of the source written out: 32 bits for registers
-- and addresses, 16 bits for EEPROM counts and addresses and for interrupt numbers. Loops over lists
-- are structural. The loops of the EEPROM driver run on fuel, one more than the bytes to move, which
-- suffices because each round moves one byte at least; the polling has the 100 rounds of the source.
--
-- The numbers of messages have 32 bits and skip 0. A number below 2 ^ 16 is printed in hexadecimal with
-- fuel for 5 digits, and n in decimal with fuel n + 1, of which each digit takes one.
--
-- Not modelled: sockets, Qt signals and start-up, log lines and waiting, statistics, the registration
-- of commands; the sense channels and ranges and the adjustment coefficients, which compute with
-- floating point numbers, the XML of clamps, the client's DSP interface, the services of COM5003 and
-- MT310s2, and the log services.
pub mod Prelude
pub mod Scpi
pub mod Settings
pub mod Notifier
pub mod Hotplug
pub mod Clamp
pub mod Client
pub mod Sec
pub mod Eeprom
pub mod Adjustment
pub mod Dsp
pub mod Pcb
pub mod Tests
