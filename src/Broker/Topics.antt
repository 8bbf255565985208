-- ===== src/Broker/Topics.antt =====
-- A topic exchange for the examples: it reads a pattern that is plain or ends in `.#`.
use skill_up.Base.{
  ℕ, ◌≡◌, refl, Bool, true, false, not, ◌&&◌, ◌||◌, [], ◌∷◌, ◌++◌, if◌then◌else◌, ◌==◌, arith,
}
use skill_up.Text.{Text, codes, text_eq, starts_with}
use skill_up.Broker.Routing.{plain, IsTopic}

unfoldable before_hash : Text → Text
before_hash [] = []
before_hash (c ∷ s) = let rest = before_hash s in if c == b'#' then [] else c ∷ rest

unfoldable pub without_last : Text → Text
without_last [] = []
without_last (c ∷ []) = []
without_last (c ∷ d ∷ s) = c ∷ without_last (d ∷ s)

unfoldable pub matches : Text → Text → Bool
unfolding before_hash without_last
matches pattern key =
    let p = before_hash pattern in
    if plain pattern then text_eq pattern key else text_eq (without_last p) key || starts_with p key

plain_tail : (w : Text) → plain (w ++ codes ".#") ≡ false
plain_tail [] = refl
plain_tail (c ∷ w) = rw (plain_tail w) (and_false (not (c == b'*' || c == b'#')))
  where
    and_false : (b : Bool) → (b && false) ≡ false
    and_false true = refl
    and_false false = refl

before_tail : (w : Text) → plain w ≡ true → before_hash (w ++ codes ".#") ≡ w ++ codes "."
unfolding before_hash
before_tail [] h = refl
before_tail (c ∷ w) h = ground (arith, before_tail w)

pub without_last-append : (w : Text) (c : ℕ) → without_last (w ++ c ∷ []) ≡ w
unfolding without_last
without_last-append [] c = refl
without_last-append (d ∷ []) c = refl
without_last-append (d ∷ e ∷ w) c = rw (without_last-append (e ∷ w) c) refl

pub matches-IsTopic : IsTopic matches
unfolding matches
matches-IsTopic = record {
  literal = λ pattern key h. rw h refl;
  tail = λ c word key h.
      rw (plain_tail (c ∷ word), before_tail (c ∷ word) h, without_last-append (c ∷ word) b'.')
        refl;
}
