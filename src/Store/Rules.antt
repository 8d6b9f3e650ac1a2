-- ===== src/Store/Rules.antt =====
-- The rules of `Wp` for what the stores build their statements from.
use callvoice.Common.{
  ◌≡◌, refl, Bool, true, false, Option, none, some, Error, Result, not_found, db_failed,
}
use callvoice.Sql.{Tables}
use callvoice.Sql.Wp.{Post}
use callvoice.Store.{found, present, require}

module _ {A : Type 0} (Q : A → Tables → Type 0) (E : Error → Tables → Type 0) where
  pub found-Post :
      (o : Option A) (t : Tables)
      → (o ≡ none → E not_found t)
      → ((a : A) → o ≡ some a → Q a t)
      → Post Q E (found o, t)
  unfolding Post found
  found-Post none t h k = h refl
  found-Post (some a) t h k = k a refl

  pub require-Post :
      (b : Bool) (e : Error) (t : Tables) (r : Result A × Tables)
      → (b ≡ false → E e t)
      → (b ≡ true → Post Q E r)
      → Post Q E (require b e t r)
  unfolding Post require
  require-Post false e t r h k = h refl
  require-Post true e t r h k = k refl

  pub present-Post :
      {B : Type 0} (o : Option B) (t : Tables) (k : B → Result A × Tables)
      → (o ≡ none → E db_failed t)
      → ((b : B) → o ≡ some b → Post Q E (k b))
      → Post Q E (present o t k)
  unfolding Post present
  present-Post none t k h g = h refl
  present-Post (some b) t k h g = g b refl
