-- ===== src/Mm/Gc/Memory.antt =====
-- Reading the objects of src/mm/gc.c in memory after a write.
use micro_posix.Prelude.{
  ℕ, refl, ap, Bool, true, false, Option, none, some, ==_iff, ==-refl, ◌≡◌, ◌∙◌, ◌≢◌, ◌==◌,
  if◌then◌else◌,
}
use micro_posix.Run.{Run, ret, fault, ◌>>=◌}
use micro_posix.Mm.Gc.{load, put_object, update, when_owned, Object, Gc}

module _ (a : ℕ) (o : Option Object) (g : Gc) where
  pub store-put_object : (put_object a o g).store a ≡ o
  store-put_object = pick (a == a) (==-refl a)
    where
      pick : (b : Bool) → b ≡ true → (if b then o else g.store a) ≡ o
      pick true e = refl
      pick false e = cc

  pub store-put_object_ne : (b : ℕ) → b ≢ a → (put_object a o g).store b ≡ g.store b
  store-put_object_ne b h = pick (b == a) refl
    where
      pick : (c : Bool) → (b == a) ≡ c → (if c then o else g.store b) ≡ g.store b
      pick true e = absurd (h ((==_iff b a).0 e))
      pick false e = refl

-- A read and a write at an object that is in memory.
module _ (a : ℕ) (o : Object) (g : Gc) (there : g.store a ≡ some o) where
  pub load-some : load a g ≡ ret o
  load-some = ap (λ p. elim p [ none ↦ fault | some o' ↦ ret o' ]) there

  pub update-some : (f : Object → Object) → update a f g ≡ ret (put_object a (some (f o)) g)
  update-some f = ap (λ m. m >>= λ o'. ret (put_object a (some (f o')) g)) load-some

  pub when_owned-mine :
      {A : Type 0} (other : Gc → Run A) (f : Object → Run A)
      → o.owned ≡ true
      → when_owned a other f g ≡ f o
  when_owned-mine other f mine =
      ap (λ m. m >>= λ o'. if o'.owned then f o' else other g) load-some
      ∙ ap (λ b. if b then f o else other g) mine
