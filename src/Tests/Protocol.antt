-- ===== src/Tests/Protocol.antt =====
-- Frames and Lua RPC requests on concrete bytes.
use edge_device_esp.Base.{ℕ, ◌≡◌, refl, arith, true, false, List, [], ◌∷◌, ◌++◌}
use edge_device_esp.Base.{some, take, length-take}
use edge_device_esp.Base.Int.{pos, negsuc}
use edge_device_esp.Protocol.Frame.{handle_frame, is_request, to_radio, Explains}
use edge_device_esp.Protocol.Frame.{handle_frame-Explains}
use edge_device_esp.Protocol.LuaRpc.{Config, Interfaces, execute, handle, rpc_read, run_operation}
use edge_device_esp.Protocol.LuaRpc.{IsWire}

abbrev packet : List ℕ
packet = 1 ∷ 2 ∷ 3 ∷ []

frame_test :
    handle_frame (some (b'E' ∷ b'Z' ∷ 3 ∷ 0 ∷ 1 ∷ 2 ∷ 3 ∷ [])) false ≡ to_radio packet false
unfolding handle_frame is_request
frame_test = refl

handle_frame-Explains_example :
    Explains
      (b'E' ∷ b'Z' ∷ 2 ∷ 0 ∷ 1 ∷ [])
      (handle_frame (some (b'E' ∷ b'Z' ∷ 2 ∷ 0 ∷ 1 ∷ [])) false)
handle_frame-Explains_example =
    handle_frame-Explains (b'E' ∷ b'Z' ∷ 2 ∷ 0 ∷ 1 ∷ []) false
      (omega arith, (omega arith, (omega arith, (omega arith, (omega arith, tt))))) (omega arith)

-- An interface whose state is what was written to it.
abbrev loopback : Interfaces (List ℕ)
loopback = record {
  connect = λ id c s. (0, []);
  close = λ id s. (0, s);
  reset_rx_cursor = λ id s. (0, s);
  set_rx_size = λ id n s. (0, s);
  write = λ id bs s. (0, s ++ bs);
  read = λ id n s. (0, take n s, s);
  read_fits = λ id n s. omega (arith, length-take n s);
}

-- "LRPC", version 1, id 0x0201, operation 6 (read), interface 0, 2 bytes.
abbrev read_request : List ℕ
read_request = b'L' ∷ b'R' ∷ b'P' ∷ b'C' ∷ 1 ∷ 1 ∷ 2 ∷ 6 ∷ 0 ∷ 2 ∷ 0 ∷ []

read_test : handle loopback true read_request true (7 ∷ 8 ∷ 9 ∷ []) ≡ (
  some (b'L' ∷ b'R' ∷ b'P' ∷ b'R' ∷ 1 ∷ 1 ∷ 2 ∷ 6 ∷ 0 ∷ 0 ∷ 0 ∷ 0 ∷ 7 ∷ 8 ∷ []),
  7 ∷ 8 ∷ 9 ∷ [],
)
unfolding handle is_request execute run_operation rpc_read
read_test = refl

abbrev config : Config
config = record {
  address_or_baud = 115200;
  rx_size = 1024;
  unit_id = 3;
  mode = 1;
  tx_pin = pos 17;
  rx_pin = negsuc 0;
}

config-IsWire : IsWire loopback config
config-IsWire = record {
  address = omega arith;
  size = omega arith;
  unit = omega arith;
  tx = omega arith;
  rx = omega arith;
}
