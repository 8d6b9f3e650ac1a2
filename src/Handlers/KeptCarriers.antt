-- ===== src/Handlers/KeptCarriers.antt =====
-- carriers.go: a handler that refuses changes no table.
use callvoice.Common.{ℕ, Option, none, some, Text, is_empty, Bool-cases, inl, inr}
use callvoice.Store.Whole.{create_carrier-Whole, update_carrier-Whole, delete_carrier-Whole}
use callvoice.Handlers.{Handler}
use callvoice.Handlers.Carriers.{
  CreateCarrierRequest, PatchCarrierRequest, if_valid, encrypted, with_password,
  handle_create_carrier, handle_patch_carrier, handle_delete_carrier,
}
use callvoice.Handlers.Safe.{
  Safe, reply-Safe, with_part-Safe, reads-Safe, last-Safe, get_carrier-reads,
}

if_valid-Safe : (o : Option Text) (k : Handler) → Safe k → Safe (if_valid o k)
unfolding if_valid
if_valid-Safe (some text) k h = reply-Safe _
if_valid-Safe none k h = h

encrypted-Safe :
    (o : Option Text) (k : Text → Handler) → ((b : Text) → Safe (k b)) → Safe (encrypted o k)
unfolding encrypted
encrypted-Safe none k h = reply-Safe _
encrypted-Safe (some b) k h = h b

module _ (encrypt : Text → Option Text) where
  with_password-Safe :
      (o : Option Text) (k : Option Text → Handler)
      → ((b : Option Text) → Safe (k b))
      → Safe (with_password encrypt o k)
  unfolding with_password
  with_password-Safe none k h = h none
  with_password-Safe (some s) k h = elim (Bool-cases (is_empty s)) [
    | inl e ↦ rw e (h none)
    | inr e ↦ rw e (encrypted-Safe _ _ (λ b. h (some b)))
  ]

  pub handle_create_carrier-Safe :
      (r : Option CreateCarrierRequest) → Safe (handle_create_carrier encrypt r)
  unfolding handle_create_carrier
  handle_create_carrier-Safe request = with_part-Safe _ _ _ (λ r.
      if_valid-Safe _ _
        (with_password-Safe _ _ (λ blob. last-Safe _ _ _ _ (create_carrier-Whole _))))

  pub handle_patch_carrier-Safe :
      (parse_uuid : Text → Option ℕ) (id : Text) (r : Option PatchCarrierRequest)
      → Safe (handle_patch_carrier encrypt parse_uuid id r)
  unfolding handle_patch_carrier
  handle_patch_carrier-Safe parse_uuid id request = with_part-Safe _ _ _ (λ id.
      with_part-Safe _ _ _ (λ r. reads-Safe _ _ _ (get_carrier-reads id) (λ cur.
        if_valid-Safe _ _
          (with_password-Safe _ _ (λ blob. last-Safe _ _ _ _ (update_carrier-Whole id _))))))

pub handle_delete_carrier-Safe :
    (parse_uuid : Text → Option ℕ) (id : Text) → Safe (handle_delete_carrier parse_uuid id)
unfolding handle_delete_carrier
handle_delete_carrier-Safe parse_uuid id =
    with_part-Safe _ _ _ (λ id. last-Safe _ _ _ _ (delete_carrier-Whole id))
