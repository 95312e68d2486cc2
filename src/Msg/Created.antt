-- ===== src/Msg/Created.antt =====
-- A message that is created from options is decoded as these options say.
use corosync_qdevice.Prelude.{
  ℕ, ◌+◌, ◌^◌, ◌≤◌, ◌<◌, ◌≡◌, refl, sym, ap, ◌∙◌, Bool, true, none, List, [], ◌∷◌, ◌++◌, length,
  length-append, All, arith,
}
use mathlib.Core.List.{append_assoc}
use corosync_qdevice.Dynar.{Dynar}
use corosync_qdevice.Dynar.Content.{IsValid}
use corosync_qdevice.Tlv.Bytes.{Memory, memory_of, be_bytes, read_be, length-be_bytes}
use corosync_qdevice.Tlv.Add.Numbers.{}
use corosync_qdevice.Tlv.Iter.{tlv_iter_init}
use corosync_qdevice.Tlv.Each.{each_option}
use corosync_qdevice.Tlv.Walk.{
  TlvOption, IsShort, encode, length-encode, Decodes, each_option-Decodes,
}
use corosync_qdevice.Tlv.RoundTrip.{read_number}
use corosync_qdevice.Msg.Types.{
  MsgType, msg_type_number, MsgDecoded, msg_decoded_init, msg_get_header_length, msg_get_type,
}
use corosync_qdevice.Msg.Create.{Adder, create}
use corosync_qdevice.Msg.Decode.{msg_option, msg_decode, msg_decode_loop}
use corosync_qdevice.Msg.Parts.{Part}
use corosync_qdevice.Msg.Layout.{Grants, create-layout}

msg_type_number_small : (t : MsgType) → msg_type_number t < 18
msg_type_number_small MsgType.preinit = omega arith
msg_type_number_small MsgType.preinit_reply = omega arith
msg_type_number_small MsgType.starttls = omega arith
msg_type_number_small MsgType.init = omega arith
msg_type_number_small MsgType.init_reply = omega arith
msg_type_number_small MsgType.server_error = omega arith
msg_type_number_small MsgType.set_option = omega arith
msg_type_number_small MsgType.set_option_reply = omega arith
msg_type_number_small MsgType.echo_request = omega arith
msg_type_number_small MsgType.echo_reply = omega arith
msg_type_number_small MsgType.node_list = omega arith
msg_type_number_small MsgType.node_list_reply = omega arith
msg_type_number_small MsgType.ask_for_vote = omega arith
msg_type_number_small MsgType.ask_for_vote_reply = omega arith
msg_type_number_small MsgType.vote_info = omega arith
msg_type_number_small MsgType.vote_info_reply = omega arith
msg_type_number_small MsgType.heuristics_change = omega arith
msg_type_number_small MsgType.heuristics_change_reply = omega arith

length-header : (t n : ℕ) → length (be_bytes 2 t ++ be_bytes 4 n) ≡ 6
length-header t n =
    omega
      (arith, length-append (be_bytes 2 t) (be_bytes 4 n), length-be_bytes 2 t, length-be_bytes 4 n)

-- The outcome of decoding a message of some bytes.
module _ (memory_grants : ℕ → ℕ → Bool) (beyond : Memory) where
  -- A message with a header and at least one option.
  pub laid_out-decode :
      (msg : Dynar) (msg_type : MsgType) (o : TlvOption) (options : List TlvOption) (m : MsgDecoded)
      → msg.bytes
        ≡ (be_bytes 2 (msg_type_number msg_type) ++ be_bytes 4 (length (encode (o ∷ options))))
          ++ encode (o ∷ options)
      → length msg.bytes < 2 ^ 62
      → All IsShort (o ∷ options)
      → Decodes
          (msg_option memory_grants)
          beyond
          (msg_decoded_init (msg_type_number msg_type))
          (o ∷ options)
          m
      → msg_decode memory_grants beyond msg ≡ (m, none)
  unfolding msg_decode msg_decode_loop tlv_iter_init
  laid_out-decode msg msg_type o options m same small short d =
      let t = msg_type_number msg_type in
      let body = encode (o ∷ options) in
      let header = be_bytes 2 t ++ be_bytes 4 (length body) in
      let fuel = length msg.bytes + 2 in
      let header_len = length-header t (length body) in
      let type_read : msg_get_type beyond msg ≡ t =
        ap (λ b. read_be 2 (memory_of b beyond) 0)
          (same ∙ append_assoc (be_bytes 2 t) (be_bytes 4 (length body)) body)
        ∙ read_number 2 t [] (be_bytes 4 (length body) ++ body) beyond 0
            (omega (arith, msg_type_number_small msg_type)) refl in
      ap
        (λ n.
          each_option (msg_option memory_grants) fuel
            (tlv_iter_init beyond msg msg_get_header_length) (msg_decoded_init n))
        type_read
      ∙ ap
          (λ n.
            each_option (msg_option memory_grants) fuel (tlv_iter_init beyond msg n)
              (msg_decoded_init t))
          (sym header_len)
      ∙ each_option-Decodes (msg_option memory_grants) beyond msg.bytes fuel header o options
          (msg_decoded_init t) m same small short d
          (omega (arith, ap length same, length-append header body, length-encode (o ∷ options)))

  -- What is created from adders of the options is decoded as the options say.
  pub created-decode :
      (grants : Grants) (msg : Dynar) (msg_type : MsgType) (adders : List Adder) (o : TlvOption)
      (options : List TlvOption) (m : MsgDecoded)
      → ((k i j : ℕ) → grants k i j ≡ true)
      → IsValid msg
      → Part memory_grants beyond
          (msg_decoded_init (msg_type_number msg_type))
          adders
          (o ∷ options)
          m
      → 6 + length (encode (o ∷ options)) ≤ msg.maximum_size
      → let r = create grants msg msg_type adders in
        (r.1 ≡ 6 + length (encode (o ∷ options)))
        × (msg_decode memory_grants beyond r.0 ≡ (m, none))
  created-decode grants msg msg_type adders o options m given v part room =
      let (content, size) =
        create-layout grants given msg msg_type adders (o ∷ options) part.adds v room in
      let body = encode (o ∷ options) in
      let t = msg_type_number msg_type in
      (
        size,
        laid_out-decode (create grants msg msg_type adders).0 msg_type o options m content
            (omega (
              arith,
              ap length content,
              length-append (be_bytes 2 t ++ be_bytes 4 (length body)) body,
              length-header t (length body),
              v.maximum_small,
            ))
            part.short part.reads,
      )
