-- ===== src/Wire/Layouts.antt =====
-- What the encoders store.
use stm32_board.Base.{
  ℕ, ◌≡◌, refl, sym, ap, ◌∙◌, List, [], ◌∷◌, ◌++◌, true, arith, length, length-append, length-drop,
  drop, drop-drop, append-nil, append_assoc, ==_refl,
}
use stm32_board.Core.{States}
use stm32_board.Wire.{write_u16_le, write_u32_le, write_i16_le, write_i32_le, write_f32_le}
use stm32_board.Wire.Payloads.{
  Cursor, write_at, write_fields, encode_fields, pad_zero, states_fields, cmd_fields,
  setpoint_fields, config_fields, stats_fields, encode_states_payload, encode_cmd_payload,
  encode_setpoint_payload, encode_config_payload, encode_stats_payload,
}
use stm32_board.Wire.Messages.{
  MotorCmdPayload, SetpointPayload, ConfigPayload, StatsPayload, states_payload_size,
  motor_cmd_payload_size, setpoint_payload_size, config_payload_size, stats_payload_size,
}

-- The bytes of the fields one after the other.
abbrev pub joined : List (List ℕ) → List ℕ
joined [] = []
joined (bytes ∷ more) = bytes ++ joined more

nil_of_length : (xs : List ℕ) → length xs ≡ 0 → xs ≡ []
nil_of_length [] h = refl
nil_of_length (x ∷ xs) h = absurd (omega arith)

write_fields-joined :
    (c : Cursor) (fields : List (List ℕ))
    → write_fields c fields
      ≡ record { written = c.written ++ joined fields; left = drop (length (joined fields)) c.left }
unfolding write_fields write_at
write_fields-joined c [] = λ i. record { written = sym (append-nil c.written) i; left = c.left }
write_fields-joined c (bytes ∷ more) =
    write_fields-joined (write_at c bytes) more
    ∙ (λ i. record { written = append_assoc c.written bytes (joined more) i; left = drops i })
  where
    drops :
        drop (length (joined more)) (drop (length bytes) c.left)
        ≡ drop (length (bytes ++ joined more)) c.left
    drops =
        drop-drop (length (joined more)) (length bytes) c.left
        ∙ ap (λ n. drop n c.left) (sym (length-append bytes (joined more)))

-- Fields that fill the span replace it whole.
write_fields-fits :
    (out : List ℕ) (fields : List (List ℕ))
    → length out ≡ length (joined fields)
    → write_fields (record { written = []; left = out }) fields
      ≡ record { written = joined fields; left = [] }
write_fields-fits out fields h =
    write_fields-joined (record { written = []; left = out }) fields ∙ (λ i. record {
      written = joined fields;
      left =
          nil_of_length (drop (length (joined fields)) out)
            (omega (arith, length-drop (length (joined fields)) out)) i;
    })

encode_fields-fits :
    (size : ℕ) (out : List ℕ) (fields : List (List ℕ))
    → length out ≡ size
    → length (joined fields) ≡ size
    → encode_fields size out fields ≡ (true, joined fields)
unfolding encode_fields
encode_fields-fits size out fields h e =
    rw (h, ==_refl, write_fields-fits out fields (h ∙ sym e), e, ==_refl, append-nil)

pub encode_cmd_payload_layout :
    (out : List ℕ) (p : MotorCmdPayload)
    → length out ≡ motor_cmd_payload_size
    → encode_cmd_payload out p ≡ (true, joined (cmd_fields p))
unfolding encode_cmd_payload cmd_fields write_u32_le write_i16_le write_u16_le
encode_cmd_payload_layout out p h = encode_fields-fits 12 out (cmd_fields p) h refl

pub encode_setpoint_payload_layout :
    (out : List ℕ) (p : SetpointPayload)
    → length out ≡ setpoint_payload_size
    → encode_setpoint_payload out p ≡ (true, joined (setpoint_fields p))
unfolding encode_setpoint_payload setpoint_fields write_u32_le write_f32_le
encode_setpoint_payload_layout out p h = encode_fields-fits 21 out (setpoint_fields p) h refl

pub encode_config_payload_layout :
    (out : List ℕ) (p : ConfigPayload)
    → length out ≡ config_payload_size
    → encode_config_payload out p ≡ (true, joined (config_fields p))
unfolding encode_config_payload config_fields write_u32_le write_u16_le
encode_config_payload_layout out p h = encode_fields-fits 12 out (config_fields p) h refl

pub encode_states_payload_layout :
    (out : List ℕ) (seq t_mono_s : ℕ) (st : States)
    → length out ≡ states_payload_size
    → encode_states_payload out seq t_mono_s st ≡ (true, joined (states_fields seq t_mono_s st))
unfolding encode_states_payload states_fields write_u32_le write_f32_le write_i32_le
encode_states_payload_layout out seq t_mono_s st h =
    encode_fields-fits 76 out (states_fields seq t_mono_s st) h refl

pub encode_stats_payload_layout :
    (out : List ℕ) (p : StatsPayload)
    → length out ≡ stats_payload_size
    → encode_stats_payload out p ≡ (true, joined (stats_fields p))
unfolding encode_stats_payload pad_zero stats_fields write_u32_le write_f32_le
encode_stats_payload_layout out p h = rw (h, write_fields-fits out (stats_fields p) h)
