-- ===== src/Lib.antt =====
-- The firmware of a NIC's out-of-band management controller (an ESP32 with FreeRTOS), and what it
-- guarantees.
--
-- The program. Three threads and two interrupt handlers share module state and four queues. An
-- interrupt handler posts what the BMC sent over I2C (components/isr_handlers); the thread of the BMC
-- manager (components/bmc_mgr) puts MCTP fragments together and parses PLDM requests out of them
-- (components/protocol_hdlr), answers them from the sensor cache or hands a firmware update to the
-- flash manager, logs the events of the NIC (components/nic_gen_mgr), and watches whether the BMC is
-- alive. The thread of the sensor manager (components/sensor_mgr) polls the sensors into its cache; the
-- thread of the flash manager (components/nic_flash_mgr) writes images through SPI flash commands
-- (components/spi_flash_cmd). Below are the drivers (bmc_hal, sensor_hal, nic_chip_hal) and the wrappers
-- over FreeRTOS (rtos_hal); main/main.c starts everything.
--
-- The model. `Firmware` (Firmware.antt) holds the static variables of every .c file. A function of the
-- source that reads or writes them is a function of the same name of type `M A`, from a state to a
-- result and the next state; `none` is what C leaves undefined: a copy out of an array, a null pointer,
-- a division by zero. Out parameters are results. What the firmware calls and does not implement is
-- the parameter `Esp` (Platform.antt): any function from the calls made so far and the call to its
-- answer, so that a theorem about all `Esp` holds for every behaviour of FreeRTOS and of the drivers.
-- The calls made, newest first, are the field `world`. Uninitialised locals hold values that `Esp`
-- chooses, of the right sizes (`IsSized`).
--
-- The files, with what they model:
--   Common        the shared helpers: arrays and `memcpy`, words, signed numbers, counted loops
--   Types         components/common/include/common_types.h, and the return codes of rtos_hal.h; Types/Crc is
--                 its CRC
--   Platform      FreeRTOS and ESP-IDF, as the parameter
--   Firmware      the state, and the monad of the stateful functions
--   Rtos          components/rtos_hal/src/rtos_hal.c
--   Hal           components/{bmc_hal,sensor_hal,nic_chip_hal}/src
--   Protocol      components/protocol_hdlr/src/mctp.c (Mctp) and pldm.c (Pldm); Mctp/Receiver is the abstract
--                 receiver that the reassembly implements, and Mctp/Contract what that means
--   ProtocolHdlr  components/protocol_hdlr/src/protocol_hdlr.c
--   Flash         components/spi_flash_cmd/src/spi_flash_cmd.c; Flash/Ops reads the write enables, erases
--                 and programs off the calls, and from the answers when the chip is not busy, Flash/Nor is what a NOR chip documents of them, and Flash/Clock what the
--                 polling relies on
--   FlashMgr      components/nic_flash_mgr/src/nic_flash_mgr.c; FlashMgr/Plan is the plan of an image
--   NicChipProtocol, GenMgr  components/nic_chip_protocol/src and components/nic_gen_mgr/src
--   SensorProtocol, SensorMgr  components/sensor_protocol/src and components/sensor_mgr/src;
--                 SensorMgr/Store is what a poll stores, SensorMgr/Range the ranges of cached fields
--                 and SensorMgr/Threads the poll and the read of the cache as interleaved stores and loads
--   BmcMgr        components/bmc_mgr/src/bmc_mgr.c; BmcMgr/Wire is the layout of the bytes in
--                 requests and responses, BmcMgr/Decide says what each command decides,
--                 BmcMgr/Drain and BmcMgr/Events give the two loops that empty a queue as steps,
--                 BmcMgr/Replies says which responses go out for what waits in the queue, and
--                 BmcMgr/Encoding is how the BMC reads and writes the bytes
--   Isr           components/isr_handlers/src/isr_handlers.c
--   Main          main/main.c
--   System        all of these together: the invariant of the running firmware, the steps that keep it, the
--                 start-up that establishes it, what the queues deliver (Queues, Typed), a request from the bus to the
--                 response, in one fragment (Request) or several (Arrival, Emptied, Delivery), a whole
--                 round of the BMC manager (Cleared), a measurement from the sensor to the BMC
--                 (Measure), and an update command from the BMC to the flash manager (Handover);
--                 System/Keeps is what a computation leaves if it returns
--   Sample        a concrete platform, flash chip and state for the tests; Sample/Fifo is a platform whose
--                 queues work
--
-- Bounds and fuel. uint8_t, uint16_t and uint32_t are natural numbers with the wrap written out where
-- the source can wrap. The source polls the flash until a time is over; the model's loop takes one unit
-- of fuel for a poll, and `polls_in timeout_ms` in all, a bound that the platform gives: on a clock
-- (`IsClock`) as many polls take more than the timeout, also where a delay of a millisecond is no tick.
-- The loop over an image takes one unit for each page, `size + 1` in all; the unrolled loops take one
-- for each element. The task loops are one round each, and the two loops that drain a queue take their
-- bound as an argument, because the interrupts that fill the queues meanwhile do not bound them.
--
-- Threads and queues. System/Steps is the firmware in operation: its steps are the interrupt handlers,
-- the timer, and one item of work of a thread, in any order. Within a step no other thread runs; the
-- mutex calls are made, and their results are dropped, as in the source. The sensor cache is the data that
-- two threads share under the mutex, and SensorMgr/Threads takes it apart: there every store and every
-- field of a struct copy is a step of its own. A queue of FreeRTOS copies bytes
-- without a type; what the threads rely on is that a receive delivers only what was sent to that queue
-- (`IsQueues`), and that different queues have different handles (`IsDistinct`). Where the order matters,
-- Platform/Fifo says what FreeRTOS documents: a queue is first in, first out (`IsFifo`), and takes items
-- up to its depth (`HasRoom`).
--
-- Not modelled: log output; the pin, clock and name arguments that are constants; the enumeration of
-- units and the message header of common_types.h, which no code reads; preemption within a step,
-- but for the sensor cache.
pub mod Common
pub mod Types
pub mod Platform
pub mod Firmware
pub mod Rtos
pub mod Hal
pub mod Protocol
pub mod ProtocolHdlr
pub mod Flash
pub mod FlashMgr
pub mod NicChipProtocol
pub mod GenMgr
pub mod SensorProtocol
pub mod SensorMgr
pub mod BmcMgr
pub mod Isr
pub mod Main
pub mod Sample
pub mod System
