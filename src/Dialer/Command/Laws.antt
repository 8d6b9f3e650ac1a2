-- ===== src/Dialer/Command/Laws.antt =====
-- What an escaped text is, and the text of the command.
use callvoice.Common.{
  ◌⊎◌, not, ◌&&◌, invalid_e164, missing_fields, ◌++◌, codes, is_empty, Error, ok, err, ℕ, ◌≡◌, refl,
  sym, Bool, true, false, Bool-cases, ◌||◌, [], ◌∷◌, Text, arith, if◌then◌else◌, ◌==◌, inl, inr,
}
use callvoice.Dialer.Command.{
  is_e164, is_special, escape_dial_string, channel_vars, build_originate,
}

-- What separates the parts of a dial string: a comma, a quote, a brace or a backslash.
abbrev separates : ℕ → Bool
separates c = c == b',' || c == b'\'' || c == b'{' || c == b'}' || c == b'\\'

-- Whether a text shows a separator that no backslash escapes.
pub exposed : Text → Bool
exposed [] = false
exposed (c ∷ []) = separates c
exposed (c ∷ (d ∷ s)) =
    let after = exposed s in
    let next = exposed (d ∷ s) in if c == b'\\' then after else separates c || next

separates-special : (c : ℕ) → is_special c ≡ false → separates c ≡ false
separates-special c h = ground arith

special_slash : (c : ℕ) → is_special c ≡ false → (c == b'\\') ≡ false
special_slash c h = ground arith

exposed_plain :
    (c : ℕ) (t : Text) → is_special c ≡ false → exposed t ≡ false → exposed (c ∷ t) ≡ false
unfolding exposed
exposed_plain c [] h e = separates-special c h
exposed_plain c (d ∷ t) h e = ground (arith, separates-special c h)

escape_special :
    (c : ℕ) (s : Text)
    → is_special c ≡ true
    → escape_dial_string (c ∷ s) ≡ b'\\' ∷ (c ∷ escape_dial_string s)
unfolding escape_dial_string
escape_special c s h = rw h

escape_plain :
    (c : ℕ) (s : Text)
    → is_special c ≡ false
    → escape_dial_string (c ∷ s) ≡ c ∷ escape_dial_string s
unfolding escape_dial_string
escape_plain c s h = rw h

-- The characters of a text in their order, each that separates behind a backslash, and no other.
abbrev pub Escaped : Text → Text → Type 0
Escaped [] t = t ≡ []
Escaped (c ∷ s) t =
    (u : Text) × Escaped s u
    × (((separates c ≡ true) × (t ≡ b'\\' ∷ (c ∷ u))) ⊎ ((separates c ≡ false) × (t ≡ c ∷ u)))

special-separates : (c : ℕ) → is_special c ≡ true → separates c ≡ true
special-separates c h = ground arith

escape_dial_string-Escaped : (s : Text) → Escaped s (escape_dial_string s)
unfolding escape_dial_string
escape_dial_string-Escaped [] = refl
escape_dial_string-Escaped (c ∷ s) = (
  escape_dial_string s,
  escape_dial_string-Escaped s,
  elim (Bool-cases (is_special c)) [
    | inl special ↦ inl (special-separates c special, escape_special c s special)
    | inr plain ↦ inr (separates-special c plain, escape_plain c s plain)
  ],
)

none_exposed : (s : Text) → exposed (escape_dial_string s) ≡ false
unfolding exposed escape_dial_string
none_exposed [] = refl
none_exposed (c ∷ s) = elim (Bool-cases (is_special c)) [
  | inl special ↦ rw (escape_special c s special) (none_exposed s)
  | inr plain ↦
      rw (escape_plain c s plain) (exposed_plain c (escape_dial_string s) plain (none_exposed s))
]

-- An escaped text has the characters of the text in their order, each comma, quote, brace and
-- backslash behind a backslash and no other character; and read from its start, with each character
-- behind a backslash skipped, it shows none of these.
pub exposed-escape_dial_string :
    (s : Text) → Escaped s (escape_dial_string s) × (exposed (escape_dial_string s) ≡ false)
exposed-escape_dial_string s = (escape_dial_string-Escaped s, none_exposed s)

-- The command that rings an agent's phone and bridges it to a number over a gateway.
pub originate_text : Text → Text → Text → Text → Text → Text
originate_text agent_user gateway_name to caller_id call_uuid =
    codes "originate {"
    ++ ((codes "origination_uuid="
          ++ (escape_dial_string call_uuid
              ++ (if is_empty caller_id
                  then []
                  else codes ",origination_caller_id_number=" ++ escape_dial_string caller_id)))
        ++ (codes "}user/"
            ++ (escape_dial_string agent_user
                ++ (codes " &bridge(sofia/gateway/"
                    ++ (escape_dial_string gateway_name
                        ++ (codes "/" ++ (escape_dial_string to ++ codes ")")))))))

pub past_checks :
    (a b c : Bool) (e f g : Error) (x y : Text)
    → (if a then err e else if b then err f else if c then err g else ok x) ≡ ok y
    → (a ≡ false) × (b ≡ false) × (c ≡ false) × (y ≡ x)
past_checks true b c e f g x y h = cc
past_checks false true c e f g x y h = cc
past_checks false false true e f g x y h = cc
past_checks false false false e f g x y h = let same : x ≡ y = cc in (refl, refl, refl, sym same)

-- What BuildOriginate builds, and the tests it makes.
pub build_originate-text :
    (agent_user gateway_name to caller_id call_uuid command : Text)
    → build_originate agent_user gateway_name to caller_id call_uuid ≡ ok command
    → (not (is_e164 to) ≡ false)
      × (not (is_empty caller_id) && not (is_e164 caller_id) ≡ false)
      × (is_empty agent_user || is_empty gateway_name || is_empty call_uuid ≡ false)
      × (command ≡ originate_text agent_user gateway_name to caller_id call_uuid)
unfolding build_originate channel_vars originate_text
build_originate-text a g to caller t command h =
    past_checks (not (is_e164 to)) (not (is_empty caller) && not (is_e164 caller))
      (is_empty a || is_empty g || is_empty t) invalid_e164 invalid_e164 missing_fields
      (originate_text a g to caller t) command h

pub build_originate-passes :
    (agent_user gateway_name to caller_id call_uuid : Text)
    → not (is_e164 to) ≡ false
    → not (is_empty caller_id) && not (is_e164 caller_id) ≡ false
    → is_empty agent_user || is_empty gateway_name || is_empty call_uuid ≡ false
    → build_originate agent_user gateway_name to caller_id call_uuid
      ≡ ok (originate_text agent_user gateway_name to caller_id call_uuid)
unfolding build_originate channel_vars originate_text
build_originate-passes a g to caller t e f n = rw (e, f, n) refl
