-- ===== src/Handlers/Safe.antt =====
-- Handlers that change no table when they refuse, and how they are put together.
use callvoice.Common.{
  ℕ, ◌≡◌, refl, ◌∙◌, Bool, true, false, Option, none, some, Text, Error, Result, ok, err,
}
use callvoice.Sql.{Tables, Db, M}
use callvoice.Sql.Laws.{tables-query}
use callvoice.Sql.Wp.{Wp-err}
use callvoice.Store.Whole.{Whole}
use callvoice.Store.Campaigns.{get_campaign}
use callvoice.Store.Carriers.{get_carrier}
use callvoice.Handlers.{
  Answer, Handler, Body, success, refusal, reply, call, then_call, with_part, unless,
}

-- A refusal leaves the tables as they were.
pub record Safe (h : Handler) : Type 0 where
  pub refused :
      (db : Db) (n : ℕ) (text : Text) → (h db).0 ≡ refusal n text → (h db).1.tables ≡ db.tables

pub reply-Safe : (a : Answer) → Safe (reply a)
reply-Safe a = record { refused = λ db n text h. refl }

module _ {A : Type 0} where
  pub with_part-Safe :
      (o : Option A) (text : Text) (k : A → Handler)
      → ((a : A) → Safe (k a))
      → Safe (with_part o text k)
  unfolding with_part
  with_part-Safe none text k h = reply-Safe _
  with_part-Safe (some a) text k h = h a

  -- A call that only reads, before the rest.
  pub reads-Safe :
      (m : M A) (f : Error → Answer) (k : A → Handler)
      → ((db : Db) → (m db).1.tables ≡ db.tables)
      → ((a : A) → Safe (k a))
      → Safe (call m f k)
  unfolding call then_call
  reads-Safe m f k r h = record { refused = λ db n text e. step (m db) db.tables (r db) n text e }
    where
      step :
          (p : Result A × Db) (t : Tables)
          → p.1.tables ≡ t
          → (n : ℕ) (text : Text) → (then_call f k p).0 ≡ refusal n text
          → (then_call f k p).1.tables ≡ t
      step (ok a, d) t e n text g = (h a).refused d n text g ∙ e
      step (err x, d) t e n text g = e

  -- The last call, whose success is answered as one.
  pub last-Safe :
      (m : M A) (f : Error → Answer) (n : ℕ) (g : A → Body)
      → ((t : Tables) → Whole m t)
      → Safe (call m f (λ a. reply (success n (g a))))
  unfolding call then_call
  last-Safe m f n g w = record {
    refused = λ db i text e.
        step (m db) db.tables
          (λ x p. Wp-err (λ _ _. Unit {0}) (λ _ u. u ≡ db.tables) m db x (w db.tables) p) i text e;
  }
    where
      step :
          (p : Result A × Db) (t : Tables)
          → ((x : Error) → p.0 ≡ err x → p.1.tables ≡ t)
          → (i : ℕ) (text : Text)
          → (then_call f (λ a. reply (success n (g a))) p).0 ≡ refusal i text
          → (then_call f (λ a. reply (success n (g a))) p).1.tables ≡ t
      step (ok a, d) t q i text e = cc
      step (err x, d) t q i text e = q x refl

pub unless-Safe : (b : Bool) (text : Text) (k : Handler) → Safe k → Safe (unless b text k)
unfolding unless
unless-Safe true text k h = reply-Safe _
unless-Safe false text k h = h

pub get_carrier-reads : (id : ℕ) (db : Db) → (get_carrier id db).1.tables ≡ db.tables
unfolding get_carrier
get_carrier-reads id db = tables-query _ db

pub get_campaign-reads : (id : ℕ) (db : Db) → (get_campaign id db).1.tables ≡ db.tables
unfolding get_campaign
get_campaign-reads id db = tables-query _ db
