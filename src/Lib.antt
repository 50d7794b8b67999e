-- ===== src/Lib.antt =====
-- Verification of the EdgeZ ESP32 firmware: a bridge between a mobile app, which is connected over
-- USB or BLE, and a HaLow mesh radio, with scripted sensors.
--
-- Bytes from the app come in over the UART (`usb_rx_task`) or as GATT writes
-- (`ble_control_gatt_access`). Both reassemble frames. BLE frames go to
-- `edgez_frame_protocol_handle_frame`, which passes a payload on to the Lua RPC or to the radio;
-- USB payloads are put into the queues towards the radio. On the radio's side the mesh bridge keeps
-- tables of the messages seen, of the deliveries made and of the packets that wait for an
-- acknowledgement.
--
-- Files and the code they model:
--   Usb/Stream     the framing and the receive loop of main/src/platform/esp32/usb_control_transport.c:
--                  `scan` is a round of the loop of usb_consume_rx, `consume` the loop with the
--                  handling of a frame as a parameter, `receive` a read of usb_rx_task
--   Usb/Session    the static variables of the same file as a record, and what usb_consume_rx does
--                  with a frame (`dispatch`), usb_enter_control_mode_with_pong (`enter_control`),
--                  usb_control_transport_exit, usb_set_log_level, the host timeout (`idle`)
--   Usb/Queue      usb_frame_queue_push and usb_frame_queue_pop of the same file, the choice that its
--                  two queue tasks make, and usb_update_mobile_gap_from_pressure
--   Usb/Link       the queues of one direction with their semaphore and their task, and
--                  usb_process_payload (`process_payload`); Path follows a frame from the host to the
--                  radio bridge
--   Protocol/Frame main/src/protocol/edgez_frame_protocol.c
--   Protocol/LuaRpc main/src/protocol/edgez_lua_rpc.c
--   Ble/Receive    ble_control_process_rx and the control and forward channels of
--                  ble_control_gatt_access in main/src/platform/esp32/ble_control.c
--   Ble/Voice      the voice channel of ble_control_gatt_access with
--                  ble_control_handle_log_command, in the same file
--   Ble/Ota        ble_control_process_ota_write and what it calls in the same file
--   Mesh/Seen      seen_message_drop_higher_hop of main/src/mesh/halow_sync_bridge.c
--   Mesh/Dedupe    delivery_dedupe_check_and_add of the same file
--   Mesh/Reliable  reliable_pending_store, reliable_pending_ack, reliable_pending_is_active and a
--                  round of reliable_tx_task of the same file
--   Mesh/Routes    the route lookups, the pins of a speed test and the two-hop waypoint of the same
--                  file
--   Mesh/Realtime  the transmit queue for voice and speed frames of the same file: the limit of a
--                  path, voice_tx_enqueue (`enqueue`) and a turn of voice_tx_task (`turn`)
--   Mesh/Speech    halow_sync_bridge_handle_voice_to_radio and halow_sync_bridge_handle_speed_to_radio
--                  of the same file
--   Mesh/GlobalBuffer the transfer of a sample to a requester, of the same file: a request
--                  (`start_for_requester`), a turn of the task that sends a chunk (`turn`)
--   Mesh/Power     the power policy of the same file: the deadlines that a lost connection sets, and a
--                  round of device_mode_ble_shutdown_task (`round`)
--   Mesh/Wire      the route prefix: send_mesh_payload_internal of
--                  main/src/platform/esp32/halow_interface_app.cpp (`send_mesh_payload`) and its reader
--   Mesh/Packet    the packets that the receive handler tells apart, and send_reliable_ack
--   Mesh/Receive   halow_sync_bridge_handle_rx_frame (Handler), with the relay; Ways names the ways
--                  a frame can go, by which the handler's theorems are proved
--   Mesh/Transmit  halow_sync_bridge_handle_to_radio of the same file (`handle_to_radio`); Kept and
--                  Acknowledged say what becomes of a message there and at the other station
--   Mesh/Topology  the topology peers of the same file: topology_note_peer (`note_peer`), the sensors
--                  of a peer, and halow_sync_bridge_fill_report_peers (`fill_report_peers`)
--   Sampling/Buffer the sample_script_global_buffer_ functions of main/src/sampling/sampling.c: the
--                  working buffer, the serving buffer and its lease, which Mesh/GlobalBuffer takes
--   Openmanet/Comms main/src/platform/esp32/openmanet_comms.c: `send_phone_frame` and `handle_frame`
--   Factory        the authorizations of main/src/factory/factory_data.c, which always answer true
--   Script/Store   main/src/scripting/local_script_store.c: the index, upsert and delete
--   Script/Aggregate script_store_build_aggregate_for_ids of the same file
--   Script/Interface main/src/scripting/local_interface.c
--   Base           words, integers, lists and tests that all of these share
--   Tests          runs on concrete inputs
--
-- Numbers are natural numbers with the wrap of `uint32_t` and `uint16_t` written out where the code
-- can wrap. Calls out of a file are events of a trace, or operations of a record that is a
-- parameter (`Interfaces`, `Nvs`, `Handlers`); what the RTOS, the drivers and the libraries answer
-- is an argument (`Env`, `Answers`, a clock reading, a route). Critical sections are single steps.
-- The two receive loops run on fuel, one unit for each byte in the buffer; each round that goes on
-- takes a byte at least.
--
-- Not modelled: logging, task creation and the sizes of stacks; the notifications of BLE, the other parts of the mesh bridge
-- (beacons, settings), the scripts of sampling, provisioning, GPS, ALFRED,
-- LED and the storage of factory data; code generated by nanopb and the prebuilt HaLow library.
pub mod Base
pub mod Factory
pub mod Usb
pub mod Protocol
pub mod Mesh
pub mod Openmanet
pub mod Ble
pub mod Script
pub mod Sampling
pub mod Tests
