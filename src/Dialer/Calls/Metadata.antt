-- ===== src/Dialer/Calls/Metadata.antt =====
-- The metadata of a call, written and read back.
use callvoice.Services.Commands.Healthy.{Healthy, get-Healthy}
use callvoice.Keys.{call_meta_key}
use callvoice.Services.Commands.{W, continue, get}
use callvoice.Services.Commands.Inversion.{get-ok, store-get, sent-get}
use callvoice.Common.{
  Result, ok, err, ◌∙◌, ◌≡◌, refl, sym, ap, Option, none, some, [], ◌∷◌, Text, eqb,
}
use callvoice.Services.{Services, Value}
use callvoice.Presence.{field}
use callvoice.Dialer.Calls.{
  meta_or_error, load_meta, parsed_meta, CallMeta, encode_meta, parse_meta,
}

abbrev written : Text → Text → Text → Text → Text → Text → CallMeta
written agent_id carrier_id to campaign_id lead_id started_at = record {
  agent_id = agent_id;
  carrier_id = carrier_id;
  to = to;
  campaign_id = campaign_id;
  lead_id = lead_id;
  started_at = started_at;
}

-- By the optional fields that are empty.
read_back :
    (a c t p l s : Text)
    → parse_meta (encode_meta (written a c t p l s)) ≡ some (written a c t p l s)
unfolding parse_meta encode_meta field eqb
read_back a c t [] [] [] = refl
read_back a c t [] [] (_ ∷ _) = refl
read_back a c t [] (_ ∷ _) [] = refl
read_back a c t [] (_ ∷ _) (_ ∷ _) = refl
read_back a c t (_ ∷ _) [] [] = refl
read_back a c t (_ ∷ _) [] (_ ∷ _) = refl
read_back a c t (_ ∷ _) (_ ∷ _) [] = refl
read_back a c t (_ ∷ _) (_ ∷ _) (_ ∷ _) = refl

-- The metadata that is written is the metadata that is read, with empty optional fields left out of
-- the text.
pub parse_meta-encode_meta : (m : CallMeta) → parse_meta (encode_meta m) ≡ some m
parse_meta-encode_meta m =
    read_back m.agent_id m.carrier_id m.to m.campaign_id m.lead_id m.started_at

module _ ⦃S : Services⦄ where
  meta-ok : (o : Option CallMeta) (w : W) (m : CallMeta) → (meta_or_error o w).0 ≡ ok m → o ≡ some m
  unfolding meta_or_error
  meta-ok none w m h = cc
  meta-ok (some x) w m h = let same : x ≡ m = cc in ap some same

  meta_same : (o : Option CallMeta) (w : W) → (meta_or_error o w).1 ≡ w
  unfolding meta_or_error
  meta_same none w = refl
  meta_same (some m) w = refl

  parsed_found :
      (r : Result (Option Value) × W) (m : CallMeta)
      → (continue parsed_meta r).0 ≡ ok m
      → (v : Value) × (r.0 ≡ ok (some v)) × (parse_meta v ≡ some m)
  unfolding parsed_meta
  parsed_found (ok none, w) m h = cc
  parsed_found (ok (some v), w) m h = (v, refl, meta-ok (parse_meta v) w m h)
  parsed_found (err e, w) m h = cc

  parsed_same : (r : Result (Option Value) × W) → (continue parsed_meta r).1 ≡ r.1
  unfolding parsed_meta
  parsed_same (err e, w) = refl
  parsed_same (ok none, w) = refl
  parsed_same (ok (some v), w) = meta_same (parse_meta v) w

  -- Metadata that is loaded is what Redis holds, however the other commands end.
  pub load_meta-ok :
      (t : Text) (w : W) (m : CallMeta)
      → (load_meta t w).0 ≡ ok m
      → (v : Value) × (S.read w.store (call_meta_key t) ≡ some v) × (parse_meta v ≡ some m)
  unfolding load_meta
  load_meta-ok t w m h =
      let (v, e, p) = parsed_found (get (call_meta_key t) w) m h in
      (v, sym (get-ok (call_meta_key t) w e), p)

  -- Loading changes nothing.
  pub load_meta-Same :
      (t : Text) (w : W) → ((load_meta t w).1.store ≡ w.store) × ((load_meta t w).1.sent ≡ w.sent)
  unfolding load_meta
  load_meta-Same t w =
      let same = parsed_same (get (call_meta_key t) w) in
      (
        ap (λ w'. w'.store) same ∙ store-get (call_meta_key t) w,
        ap (λ w'. w'.sent) same ∙ sent-get (call_meta_key t) w,
      )

  -- If Redis answers, metadata that was written is loaded.
  pub load_meta_written :
      (t : Text) (m : CallMeta) (w : W)
      → Healthy w
      → S.read w.store (call_meta_key t) ≡ some (encode_meta m)
      → load_meta t w ≡ (ok m, w)
  unfolding load_meta parsed_meta meta_or_error
  load_meta_written t m w h e =
      rw (get-Healthy (call_meta_key t) w h, e, parsed_meta, parse_meta-encode_meta m)
