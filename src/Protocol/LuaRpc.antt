-- ===== src/Protocol/LuaRpc.antt =====
-- main/src/protocol/edgez_lua_rpc.c: requests from the mobile app that drive a local sensor
-- interface. The interface calls go through the table of `edgez_platform_get()`, which another
-- component registers: they are the operations of a record over that component's state.
use edge_device_esp.Base.{ℕ, lt→ltb, ◌⊎◌, ◌/◌, ◌%◌, ◌<◌, ◌≤◌, ◌≡◌, refl, arith, inl, inr}
use edge_device_esp.Base.{Bool, true, false, ◌||◌, not, ltb, ◌==◌, if◌then◌else◌}
use edge_device_esp.Base.{List, [], ◌∷◌, ◌++◌, length, drop, get_or, Option, none, some}
use edge_device_esp.Base.Words.{
  word16, word32, le16_bytes, le32_bytes, word16-bytes, word32-bytes, IsU16, IsU32, IsByte,
}
use edge_device_esp.Base.Int.{ℤ, of_bits16, bits16, IsInt16, of_bits16-bits16, bits16-IsU16}
use edge_device_esp.Protocol.Frame.{is_request}

-- `edgez_platform_interface_config_t`, as `rpc_connect` fills it.
pub record Config : Type 0 where
  pub address_or_baud : ℕ
  pub rx_size : ℕ
  pub unit_id : ℕ
  pub mode : ℕ
  pub tx_pin : ℤ
  pub rx_pin : ℤ

-- The interface part of `edgez_platform_api_t`, over the state behind it. An error code is the
-- `uint32_t` of an `esp_err_t`. `read` also gives the bytes that it put into the buffer, of which
-- there are at most as many as it was asked for.
pub record Interfaces (S : Type 0) : Type 0 where
  pub connect : ℕ → Config → S → ℕ × S
  pub close : ℕ → S → ℕ × S
  pub reset_rx_cursor : ℕ → S → ℕ × S
  pub set_rx_size : ℕ → ℕ → S → ℕ × S
  pub write : ℕ → List ℕ → S → ℕ × S
  pub read : ℕ → ℕ → S → ℕ × List ℕ × S
  pub read_fits : (id requested : ℕ) (s : S) → length (read id requested s).1 ≤ requested

-- `ESP_ERR_INVALID_ARG`, `ESP_ERR_INVALID_SIZE`, `ESP_ERR_NOT_SUPPORTED`.
abbrev pub invalid_arg : ℕ
invalid_arg = 0x102

abbrev pub invalid_size : ℕ
invalid_size = 0x104

abbrev pub not_supported : ℕ
not_supported = 0x106

module _ {S : Type 0} (api : Interfaces S) where
  pub rpc_connect : ℕ → List ℕ → S → ℕ × S
  rpc_connect id body s =
      if ltb (length body) 15
      then (invalid_size, s)
      else (let b = λ (i : ℕ). get_or body i 0 in
          api.connect id
            (record {
              address_or_baud = word32 (b 0) (b 1) (b 2) (b 3);
              rx_size = word16 (b 4) (b 5);
              unit_id = word16 (b 6) (b 7);
              mode = b 8;
              tx_pin = of_bits16 (word16 (b 9) (b 10));
              rx_pin = of_bits16 (word16 (b 11) (b 12));
            })
            s)

  pub rpc_set_rx_size : ℕ → List ℕ → S → ℕ × S
  rpc_set_rx_size id body s =
      if ltb (length body) 2
      then (invalid_size, s)
      else api.set_rx_size id (word16 (get_or body 0 0) (get_or body 1 0)) s

  -- `out_size` is the room behind the response header, 512 - 12.
  unfoldable pub rpc_read : ℕ → List ℕ → ℕ → S → ℕ × List ℕ × S
  rpc_read id body out_size s =
      if ltb (length body) 2
      then (invalid_arg, [], s)
      else (let requested = word16 (get_or body 0 0) (get_or body 1 0) in
          api.read id (if ltb out_size requested then out_size else requested) s)

  no_body : ℕ × S → ℕ × List ℕ × S
  no_body (err, s) = (err, [], s)

  -- The switch of `edgez_lua_rpc_handle`: error code, response body, state.
  unfoldable pub run_operation : ℕ → ℕ → List ℕ → S → ℕ × List ℕ × S
  unfolding no_body
  run_operation operation id body s =
      if operation == 1
      then no_body (rpc_connect id body s)
      else if operation == 2
      then no_body (api.close id s)
      else if operation == 3
      then no_body (api.reset_rx_cursor id s)
      else if operation == 4
      then no_body (rpc_set_rx_size id body s)
      else if operation == 5
      then no_body (api.write id body s)
      else if operation == 6
      then rpc_read id body 500 s
      else (not_supported, [], s)

  -- The part of `edgez_lua_rpc_handle` that depends on CONFIG_EDGEZ_SENSOR_SCRIPTING.
  unfoldable pub execute : Bool → List ℕ → S → ℕ × List ℕ × S
  execute scripting payload s =
      if scripting
      then run_operation (get_or payload 7 0) (get_or payload 8 0) (drop 9 payload) s
      else (not_supported, [], s)

  -- `edgez_lua_rpc_handle`. The result is what is passed to `send_fn`, if it is called.
  unfoldable pub handle : Bool → List ℕ → Bool → S → Option (List ℕ) × S
  handle scripting payload has_send s =
      if not (is_request payload) || not has_send
      then (none, s)
      else (let (err, body, s') = execute scripting payload s in
          let request_id = word16 (get_or payload 5 0) (get_or payload 6 0) in
          (
            some (
                b'L'
                ∷ b'R'
                ∷ b'P'
                ∷ b'R'
                ∷ 1
                ∷ (le16_bytes request_id ++ (get_or payload 7 0 ∷ (le32_bytes err ++ body)))),
            s',
          ))

  run_operation_fits :
      (operation id : ℕ) (body : List ℕ) (s : S)
      → length (run_operation operation id body s).1 ≤ 500
  unfolding run_operation rpc_read
  run_operation_fits operation id body s =
      let req = word16 (get_or body 0 0) (get_or body 1 0) in
      ground (arith, api.read_fits id 500 s, api.read_fits id req s)

  execute_fits :
      (scripting : Bool) (payload : List ℕ) (s : S) → length (execute scripting payload s).1 ≤ 500
  unfolding execute
  execute_fits true payload s = run_operation_fits _ _ _ s
  execute_fits false payload s = omega arith

  -- The response to a request: the request's own id and operation, the error, the body.
  abbrev pub response : List ℕ → ℕ → List ℕ → List ℕ
  response payload err body =
      b'L'
      ∷ b'R'
      ∷ b'P'
      ∷ b'R'
      ∷ 1
      ∷ get_or payload 5 0
      ∷ get_or payload 6 0
      ∷ get_or payload 7 0
      ∷ (le32_bytes err ++ body)

  -- A request whose id consists of bytes, with a reply channel, is answered by one response,
  -- which carries the id and the operation of the request byte for byte, the error and the body,
  -- and fits into 512 bytes.
  pub handle-response :
      (scripting : Bool) (payload : List ℕ) (s : S)
      → is_request payload ≡ true
      → IsByte (get_or payload 5 0)
      → IsByte (get_or payload 6 0)
      → let (err, body, s') = execute scripting payload s in
        (handle scripting payload true s ≡ (some (response payload err body), s'))
        × (length (response payload err body) ≤ 512)
  unfolding handle
  handle-response scripting payload s e b c =
      let lo : word16 (get_or payload 5 0) (get_or payload 6 0) % 256 ≡ get_or payload 5 0 =
        omega arith in
      let hi : word16 (get_or payload 5 0) (get_or payload 6 0) / 256 % 256 ≡ get_or payload 6 0 =
        omega arith in
      (rw (e, lo, hi) refl, omega (arith, execute_fits scripting payload s))

  -- A body too short for its operation: connect wants 15 bytes, set-size and read want 2.
  abbrev pub IsShort : ℕ → List ℕ → Type 0
  IsShort operation body =
      ((operation ≡ 1) × (length body < 15))
      ⊎ ((operation ≡ 4) × (length body < 2))
      ⊎ ((operation ≡ 6) × (length body < 2))

  -- A request with too short a body for its operation is refused with a size or an argument
  -- error, without a body and without a call of an interface.
  pub run_operation-short :
      (operation id : ℕ) (body : List ℕ) (s : S)
      → IsShort operation body
      → (run_operation operation id body s ≡ (invalid_size, [], s))
        ⊎ (run_operation operation id body s ≡ (invalid_arg, [], s))
  unfolding run_operation rpc_connect rpc_set_rx_size rpc_read no_body
  run_operation-short operation id body s (inl (e, h)) =
      inl (rw (e, lt→ltb (length body) 15 h) refl)
  run_operation-short operation id body s (inr (inl (e, h))) =
      inl (rw (e, lt→ltb (length body) 2 h) refl)
  run_operation-short operation id body s (inr (inr (e, h))) =
      inr (rw (e, lt→ltb (length body) 2 h) refl)

  -- The connect request that a client sends for a configuration; two bytes behind it are not read.
  abbrev pub connect_request : ℕ → ℕ → Config → List ℕ
  connect_request request_id id c =
      b'L'
      ∷ b'R'
      ∷ b'P'
      ∷ b'C'
      ∷ 1
      ∷ (le16_bytes request_id
          ++ (1
              ∷ id
              ∷ (le32_bytes c.address_or_baud
                  ++ (le16_bytes c.rx_size
                      ++ (le16_bytes c.unit_id
                          ++ (c.mode
                              ∷ (le16_bytes (bits16 c.tx_pin)
                                  ++ (le16_bytes (bits16 c.rx_pin) ++ (0 ∷ 0 ∷ [])))))))))

  -- What the wire format can hold.
  pub record IsWire (c : Config) : Type 0 where
    pub address : IsU32 c.address_or_baud
    pub size : IsU16 c.rx_size
    pub unit : IsU16 c.unit_id
    pub tx : IsInt16 c.tx_pin
    pub rx : IsInt16 c.rx_pin

  -- A connect request for a configuration that the wire format can hold connects the interface
  -- with exactly that configuration, negative pin numbers included, and gives back the
  -- interface's answer with no body.
  pub handle-connect_request :
      (request_id id : ℕ) (c : Config) (s : S)
      → IsWire c
      → execute true (connect_request request_id id c) s
        ≡ ((api.connect id c s).0, [], (api.connect id c s).1)
  unfolding execute run_operation rpc_connect no_body
  handle-connect_request request_id id c s w =
      rw
        (
          word32-bytes c.address_or_baud w.address,
          word16-bytes c.rx_size w.size,
          word16-bytes c.unit_id w.unit,
          word16-bytes (bits16 c.tx_pin) (bits16-IsU16 c.tx_pin w.tx),
          word16-bytes (bits16 c.rx_pin) (bits16-IsU16 c.rx_pin w.rx),
          of_bits16-bits16 c.tx_pin w.tx,
          of_bits16-bits16 c.rx_pin w.rx,
        )
        refl
