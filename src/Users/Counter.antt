-- ===== src/Users/Counter.antt =====
-- Attempt counters in Redis, as the login and the verification providers read and advance them.
use skill_up.Base.{
  ℕ, suc, ◌≡◌, ◌∙◌, ap, Option, none, some, [], ◌∷◌, ◌++◌, if◌then◌else◌, ltb, ◌⊎◌, inl, inr,
}
use skill_up.Text.{Text, codes, text_eq_refl}
use skill_up.Text.Decimal.{print, parse_int, parse_int-print, print-cons}
use skill_up.Services.{Services, Ttl, IsRedis}

-- `attemptsStr ? parseInt(attemptsStr, 10) : 0`
unfoldable pub read_count : Option Text → Option ℕ
read_count none = some 0
read_count (some []) = some 0
read_count (some (c ∷ s)) = parse_int (c ∷ s)

-- `ttl > 0 ? ttl : fallback`
abbrev pub effective_ttl : Ttl → ℕ → ℕ
effective_ttl (Ttl.seconds n) fallback = if ltb 0 n then n else fallback
effective_ttl Ttl.missing fallback = fallback
effective_ttl Ttl.persistent fallback = fallback

-- ` [Retry-After: ${n}]`, by which the services tell the gateway how long to wait.
unfoldable pub retry_after : ℕ → Text
retry_after n = codes " [Retry-After: " ++ print n ++ codes "]"

pub read_count-print : (n : ℕ) → read_count (some (print n)) ≡ some n
unfolding read_count
read_count-print n = let (c, s, e, d) = print-cons n in rw e (rw e at (parse_int-print n))

module _ {S : Services} (law : IsRedis S) where
  -- The counter at `k` stands at `n`: it is absent, or a numeral that INCR wrote.
  abbrev pub Counts : Text → ℕ → S.Store → Type 0
  Counts k n s = ((n ≡ 0) × (S.get k s ≡ none)) ⊎ (S.get k s ≡ some (print n))

  pub read_count-Counts :
      (k : Text) (n : ℕ) (s : S.Store) → Counts k n s → read_count (S.get k s) ≡ some n
  unfolding read_count
  read_count-Counts k n s (inl (z, e)) = rw (e, z)
  read_count-Counts k n s (inr e) = rw e (read_count-print n)

  pub incr-Counts : (k : Text) (n : ℕ) (s : S.Store) → Counts k n s → (S.incr k s).0 ≡ suc n
  incr-Counts k n s (inl (z, e)) = law.incr_first k s e ∙ rw z
  incr-Counts k n s (inr e) = law.incr_next k s n e

  pub Counts-incr :
      (k : Text) (n : ℕ) (s : S.Store) → Counts k n s → Counts k (suc n) ((S.incr k s).1)
  Counts-incr k n s h =
      inr
        (law.get-incr k k s ∙ rw (text_eq_refl k) (ap (λ m. some (print m)) (incr-Counts k n s h)))
