-- ===== src/Dialer/Command/Pattern.antt =====
-- The numbers that IsE164 accepts, by a meaning of regular expressions, and what BuildOriginate
-- makes of them.
use callvoice.Common.{
  ℕ, zero, suc, ◌≡◌, ◌≢◌, refl, ap, ◌∙◌, ◌⊎◌, ◌↔◌, ◌≤◌, true, [], ◌∷◌, ◌++◌, Text, len, arith,
}
use callvoice.Dialer.Command.{all_digits, is_e164}

-- Regular expressions: a character of a range, one expression after another, and an expression as
-- often as the bounds allow.
pub data Pattern : Type 0 where
  one : ℕ → ℕ → Pattern
  after : Pattern → Pattern → Pattern
  times : ℕ → ℕ → Pattern → Pattern

-- Texts one after the other, so many of them, each with a property.
abbrev pub Repeated : (Text → Type 0) → ℕ → Text → Type 0
Repeated P zero t = t ≡ []
Repeated P (suc n) t = (x : Text) × (y : Text) × (t ≡ x ++ y) × P x × Repeated P n y

abbrev pub Matches : Pattern → Text → Type 0
Matches (one a b) t = (c : ℕ) × (t ≡ c ∷ []) × (a ≤ c) × (c ≤ b)
Matches (after p q) t = (x : Text) × (y : Text) × (t ≡ x ++ y) × Matches p x × Matches q y
Matches (times least most p) t = (n : ℕ) × (least ≤ n) × (n ≤ most) × Repeated (Matches p) n t

-- `^\+[1-9]\d{1,14}$`
abbrev pub e164_pattern : Pattern
e164_pattern = after (one b'+' b'+') (after (one b'1' b'9') (times 1 14 (one b'0' b'9')))

abbrev Digit : Text → Type 0
Digit = Matches (one b'0' b'9')

digits-Repeated : (s : Text) → all_digits s ≡ true → Repeated Digit (len s) s
digits-Repeated [] h = refl
digits-Repeated (c ∷ s) h =
    (c ∷ [], s, refl, (c, refl, ground arith, ground arith), digits-Repeated s (ground arith))

Repeated-digits : (n : ℕ) (s : Text) → Repeated Digit n s → (all_digits s ≡ true) × (len s ≡ n)
Repeated-digits zero s e = rw e (refl, refl)
Repeated-digits (suc n) s (x, y, e, (c, f, low, high), r) =
    let (digits, size) = Repeated-digits n y r in
    let whole : s ≡ c ∷ y = e ∙ ap (λ z. z ++ y) f in
    rw whole (digit_first c y low high digits, ap suc size)
  where
    digit_first :
        (c : ℕ) (y : Text) → b'0' ≤ c → c ≤ b'9' → all_digits y ≡ true → all_digits (c ∷ y) ≡ true
    digit_first c y low high digits = ground arith

e164-Matches :
    (p c : ℕ) (s : Text) → is_e164 (p ∷ (c ∷ s)) ≡ true → Matches e164_pattern (p ∷ (c ∷ s))
unfolding is_e164
e164-Matches p c s h = (
  p ∷ [],
  c ∷ s,
  refl,
  (p, refl, ground arith, ground arith),
  (
    c ∷ [],
    s,
    refl,
    (c, refl, ground arith, ground arith),
    (len s, ground arith, ground arith, digits-Repeated s (ground arith)),
  ),
)

accepts :
    (p c : ℕ) (s : Text)
    → b'+' ≤ p
    → p ≤ b'+'
    → b'1' ≤ c
    → c ≤ b'9'
    → all_digits s ≡ true
    → 1 ≤ len s
    → len s ≤ 14
    → is_e164 (p ∷ (c ∷ s)) ≡ true
unfolding is_e164
accepts p c s a b low high digits least most = ground arith

Matches-e164 : (t : Text) → Matches e164_pattern t → is_e164 t ≡ true
Matches-e164 t (x, y, e, (p, f, a, b), (u, s, g, (c, h, low, high), (n, least, most, r))) =
    let (digits, size) = Repeated-digits n s r in
    let rest : y ≡ c ∷ s = g ∙ ap (λ z. z ++ s) h in
    let whole : t ≡ p ∷ (c ∷ s) = e ∙ ap (λ z. z ++ y) f ∙ ap (λ z. p ∷ z) rest in
    rw whole
      (accepts p c s a b low high digits (omega (arith, size, least)) (omega (arith, size, most)))

-- IsE164 accepts the texts that match the pattern `^\+[1-9]\d{1,14}$`, by the meaning of its parts,
-- and no others; so two digits are the fewest.
pub is_e164-Matches : (t : Text) → (is_e164 t ≡ true) ↔ Matches e164_pattern t
unfolding is_e164
is_e164-Matches [] = (λ h. cc, λ m. Matches-e164 [] m)
is_e164-Matches (p ∷ []) = (λ h. cc, λ m. Matches-e164 (p ∷ []) m)
is_e164-Matches (p ∷ (c ∷ s)) = (λ h. e164-Matches p c s h, λ m. Matches-e164 (p ∷ (c ∷ s)) m)

-- What a call needs: a number, a caller's number or none, and names that are not empty.
abbrev pub Dialable : Text → Text → Text → Text → Text → Type 0
Dialable agent_user gateway_name to caller_id call_uuid =
    Matches e164_pattern to
    × ((caller_id ≡ []) ⊎ Matches e164_pattern caller_id)
    × (agent_user ≢ [])
    × (gateway_name ≢ [])
    × (call_uuid ≢ [])
