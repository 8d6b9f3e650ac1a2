-- ===== src/Dialer/Hangup/Laws.antt =====
-- Who may hang up a call, and what a hangup leaves behind.
use callvoice.Common.{
  ℕ, ◌≡◌, refl, ◌⊎◌, inl, inr, false, Bool-cases, some, Text, eqb, eqb_iff, is_empty, Error, Result,
  ok, err, not_found,
}
use callvoice.Services.{Services, Value}
use callvoice.Services.Commands.{W, continue}
use callvoice.Keys.{call_meta_key}
use callvoice.Dialer.Calls.{CallMeta, parse_meta, load_meta}
use callvoice.Dialer.Calls.Metadata.{load_meta-ok, load_meta-Same}
use callvoice.Dialer.Originate.{Manual}
use callvoice.Dialer.Hangup.{find_call, owned, kill, hangup}

module _ ⦃S : Services⦄ where
  -- The metadata of a call gives it to an agent.
  abbrev pub Owns : ℕ → Text → W → Type 0
  Owns a t w =
      (v : Value) × (m : CallMeta) × (S.read w.store (call_meta_key t) ≡ some v)
      × (parse_meta v ≡ some m)
      × (m.agent_id ≡ S.uuid_string a)

  -- Nothing is sent to FreeSWITCH and nothing is changed in Redis.
  abbrev pub Refused : W → Result (Unit {0}) × W → Type 0
  Refused w after =
      (e : Error) × (after.0 ≡ err e) × (after.1.store ≡ w.store) × (after.1.sent ≡ w.sent)

  owned-Refused :
      (m : Manual) (a : ℕ) (t : Text) (w : W) (r : Result CallMeta × W)
      → r.1.store ≡ w.store
      → r.1.sent ≡ w.sent
      → ((meta : CallMeta) (found : r.0 ≡ ok meta)
          → (v : Value) × (S.read w.store (call_meta_key t) ≡ some v) × (parse_meta v ≡ some meta))
      → Refused w (continue (kill m a) (continue (owned a t) (ok r.0, r.1))) ⊎ Owns a t w
  unfolding owned
  owned-Refused m a t w (err not_found, w1) es et found = inl (_, refl, es, et)
  owned-Refused m a t w (err x, w1) es et found = inl (_, refl, es, et)
  owned-Refused m a t w (ok meta, w1) es et found =
      elim (Bool-cases (eqb meta.agent_id (S.uuid_string a))) [
        | inr other ↦ rw other (inl (_, refl, es, et))
        | inl mine ↦
            let (v, at, parsed) = found meta refl in
            inr (v, meta, at, parsed, (eqb_iff meta.agent_id (S.uuid_string a)).0 mine)
      ]

  -- However the commands end, a hangup of a given call is refused, with nothing sent to FreeSWITCH and
  -- nothing changed in Redis, or the call's metadata names this agent.
  pub hangup-Owns :
      (m : Manual) (a : ℕ) (t : Text) (w : W)
      → is_empty t ≡ false
      → Refused w (hangup m a t w) ⊎ Owns a t w
  unfolding hangup find_call
  hangup-Owns m a t w given =
      let (es, et) = load_meta-Same t w in
      rw given (owned-Refused m a t w (load_meta t w) es et (load_meta-ok t w))
