-- ===== src/Nrf54l15/CoreSync/Meet/Exchange.antt =====
-- What two calls of `mp_hal_nrf54l15_core_rendezvous` of platform/nrf54l15/shared/core_sync.c give each
-- other.
use micro_posix.Prelude.{ℕ, refl, sym, subst, false, arith, ==_iff, ==-refl, ◌≡◌, ◌==◌}
use micro_posix.Nrf54l15.Ipc.{put}
use micro_posix.Nrf54l15.CoreSync.{core_rendezvous_init, set_flag, set_data, Shared}
use micro_posix.Nrf54l15.CoreSync.Meet.{
  outside, stored, waiting, seen, reading, cleared, met, left, stores, publishes, sees, reads,
  clears_own, clears_other, leaves, start, first, second, Phase, Act, Reach,
}

-- A call that has returned with data has this value.
abbrev pub MetWith : Phase → ℕ → Type 0
MetWith (met v) value = v ≡ value
MetWith p value = Unit {0}

abbrev pub IsMet : Phase → Type 0
IsMet (met v) = Unit {0}
IsMet p = ⊥

-- The data of a core is its value from the first access on.
abbrev Has : Phase → (value there : ℕ) → Type 0
Has outside value there = Unit {0}
Has p value there = there ≡ value

-- The flag of a core is clear unless the core waits or has not yet cleared it.
abbrev Quiet : Phase → (flag : ℕ) → Type 0
Quiet waiting flag = Unit {0}
Quiet seen flag = Unit {0}
Quiet (reading v) flag = Unit {0}
Quiet p flag = flag ≡ 0

-- What a core has of the other's value, which stands `there`.
abbrev Got : Phase → (value there : ℕ) → Type 0
Got seen value there = there ≡ value
Got (reading v) value there = v ≡ value
Got (cleared v) value there = v ≡ value
Got (met v) value there = v ≡ value
Got p value there = Unit {0}

-- Of the core `i` in phase `p` and the core `j` in phase `q`.
record Inv (i j value other : ℕ) (p q : Phase) (s : Shared) : Type 0 where
  has : Has p value (s.data_of i)
  other_has : Has q other (s.data_of j)
  quiet : Quiet p (s.core_ready i)
  other_quiet : Quiet q (s.core_ready j)
  got : Got p other (s.data_of j)
  other_got : Got q value (s.data_of i)

Inv-swap :
    {i j value other : ℕ} {p q : Phase} {s : Shared}
    → Inv i j value other p q s
    → Inv j i other value q p s
Inv-swap v = record {
  has = v.other_has;
  other_has = v.has;
  quiet = v.other_quiet;
  other_quiet = v.quiet;
  got = v.other_got;
  other_got = v.got;
}

Quiet-zero : (p : Phase) (flag : ℕ) → flag ≡ 0 → Quiet p flag
Quiet-zero outside flag e = e
Quiet-zero stored flag e = e
Quiet-zero waiting flag e = tt
Quiet-zero seen flag e = tt
Quiet-zero (reading v) flag e = tt
Quiet-zero (cleared v) flag e = e
Quiet-zero (met v) flag e = e
Quiet-zero left flag e = e

Got-same : (p : Phase) (value there now : ℕ) → now ≡ value → Got p value there → Got p value now
Got-same outside value there now e g = tt
Got-same stored value there now e g = tt
Got-same waiting value there now e g = tt
Got-same seen value there now e g = e
Got-same (reading v) value there now e g = g
Got-same (cleared v) value there now e g = g
Got-same (met v) value there now e g = g
Got-same left value there now e g = tt

-- A core whose flag is set has stored its data.
Has-flag :
    (p : Phase) (value there flag : ℕ)
    → (flag == 0) ≡ false
    → Quiet p flag
    → Has p value there
    → there ≡ value
Has-flag outside value there flag e q h = absurd (ground (arith, e, q))
Has-flag stored value there flag e q h = h
Has-flag waiting value there flag e q h = h
Has-flag seen value there flag e q h = h
Has-flag (reading v) value there flag e q h = h
Has-flag (cleared v) value there flag e q h = h
Has-flag (met v) value there flag e q h = h
Has-flag left value there flag e q h = h

put_same : (f : ℕ → ℕ) (i a : ℕ) → put f i a i ≡ a
put_same f i a = rw (==-refl i)

put_other : (f : ℕ → ℕ) (i j a : ℕ) → (j == i) ≡ false → put f i a j ≡ f j
put_other f i j a e = rw e

-- A step of one core keeps what holds of both.
module _ (i j value other : ℕ) (apart : (j == i) ≡ false) where
  -- The own flag changes.
  flag_changes :
      (flag : ℕ) (p p' q : Phase) (s : Shared)
      → Inv i j value other p q s
      → Has p' value (s.data_of i)
      → Quiet p' flag
      → Got p' other (s.data_of j)
      → Inv i j value other p' q (set_flag i flag s)
  unfolding set_flag
  flag_changes flag p p' q s v has quiet got = record {
    has = has;
    other_has = v.other_has;
    quiet = subst (Quiet p') (sym (put_same s.core_ready i flag)) quiet;
    other_quiet = subst (Quiet q) (sym (put_other s.core_ready i j flag apart)) v.other_quiet;
    got = got;
    other_got = v.other_got;
  }

  Act-Inv :
      {p p' q : Phase} {s s' : Shared}
      → Inv i j value other p q s
      → Act i j value p s p' s'
      → Inv i j value other p' q s'
  unfolding set_flag set_data
  Act-Inv {q} {s} v stores = stored_Inv
    where
      stored_Inv : Inv i j value other stored q (set_data i value s)
      stored_Inv = record {
        has = put_same s.data_of i value;
        other_has = subst (Has q other) (sym (put_other s.data_of i j value apart)) v.other_has;
        quiet = v.quiet;
        other_quiet = v.other_quiet;
        got = tt;
        other_got = Got-same q value _ _ (put_same s.data_of i value) v.other_got;
      }
  Act-Inv {q} {s} v publishes = flag_changes 1 stored waiting q s v v.has tt tt
  Act-Inv {q} {s} v (sees e) = record {
    has = v.has;
    other_has = v.other_has;
    quiet = tt;
    other_quiet = v.other_quiet;
    got = Has-flag q other (s.data_of j) (s.core_ready j) e v.other_quiet v.other_has;
    other_got = v.other_got;
  }
  Act-Inv v reads = record {
    has = v.has;
    other_has = v.other_has;
    quiet = tt;
    other_quiet = v.other_quiet;
    got = v.got;
    other_got = v.other_got;
  }
  Act-Inv {q} {s} v (clears_own {v = x}) =
      flag_changes 0 (reading x) (cleared x) q s v v.has refl v.got
  Act-Inv {q} {s} v (clears_other {v = x}) = other_clear
    where
      other_clear : Inv i j value other (met x) q (set_flag j 0 s)
      other_clear = record {
        has = v.has;
        other_has = v.other_has;
        quiet =
            subst (λ (f : ℕ). f ≡ 0)
              (sym (put_other s.core_ready j i 0 (ground (arith, ==_iff i j, ==_iff j i)))) v.quiet;
        other_quiet = Quiet-zero q _ (put_same s.core_ready j 0);
        got = v.got;
        other_got = v.other_got;
      }
  Act-Inv {q} {s} v leaves = flag_changes 0 waiting left q s v v.has refl tt

Reach-Inv :
    {value0 value1 : ℕ} {p q : Phase} {s : Shared}
    → Reach value0 value1 p q s
    → Inv 0 1 value0 value1 p q s
unfolding core_rendezvous_init
Reach-Inv (start s) = record {
  has = tt;
  other_has = tt;
  quiet = refl;
  other_quiet = refl;
  got = tt;
  other_got = tt;
}
Reach-Inv {value0} {value1} (first r a) = Act-Inv 0 1 value0 value1 refl (Reach-Inv r) a
Reach-Inv {value0} {value1} (second r a) =
    Inv-swap (Act-Inv 1 0 value1 value0 refl (Inv-swap (Reach-Inv r)) a)

Got-MetWith : (p : Phase) (value there : ℕ) → Got p value there → MetWith p value
Got-MetWith outside value there g = tt
Got-MetWith stored value there g = tt
Got-MetWith waiting value there g = tt
Got-MetWith seen value there g = tt
Got-MetWith (reading v) value there g = tt
Got-MetWith (cleared v) value there g = tt
Got-MetWith (met v) value there g = g
Got-MetWith left value there g = tt

Quiet-met : (p : Phase) (flag : ℕ) → Quiet p flag → IsMet p → flag ≡ 0
Quiet-met outside flag e m = absurd m
Quiet-met stored flag e m = absurd m
Quiet-met waiting flag e m = absurd m
Quiet-met seen flag e m = absurd m
Quiet-met (reading v) flag e m = absurd m
Quiet-met (cleared v) flag e m = absurd m
Quiet-met (met v) flag e m = e
Quiet-met left flag e m = absurd m

-- However the accesses of the two calls interleave, on a rendezvous just initialised and with one call
-- of `mp_hal_nrf54l15_core_rendezvous` on each core, a call that has returned with data has the data
-- that the other core passed; and the flag of its core is then clear, so that the other core, if it
-- still waits, does not meet it any more.
pub Reach-MetWith :
    (value0 value1 : ℕ) (p q : Phase) (s : Shared)
    → Reach value0 value1 p q s
    → (MetWith p value1 × MetWith q value0)
      × (IsMet p → s.core_ready 0 ≡ 0)
      × (IsMet q → s.core_ready 1 ≡ 0)
Reach-MetWith value0 value1 p q s r =
    let v = Reach-Inv r in
    (
      (Got-MetWith p value1 _ v.got, Got-MetWith q value0 _ v.other_got),
      Quiet-met p _ v.quiet,
      Quiet-met q _ v.other_quiet,
    )
