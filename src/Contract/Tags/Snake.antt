-- ===== src/Contract/Tags/Snake.antt =====
-- The two functions `toSnake`, of contract/contract.go and of internal/gen/util.go.
use sokel_plugin_sdk.Base.{
  ℕ, Text, true, false, Option, none, some, [], ◌∷◌, All, ◌≡◌, ◌≢◌, refl, arith,
}
use sokel_plugin_sdk.Gen.Patterns.{is_upper_letter}
use sokel_plugin_sdk.Contract.Tags.{next_lower, snake_from, to_snake, gen_to_snake}

-- No capital letter
abbrev IsLowered : Text → Type 0
IsLowered s = All (λ c. is_upper_letter c ≡ false) s

snake_from-IsLowered : (prev : Option ℕ) (s : Text) → IsLowered (snake_from prev s)
unfolding snake_from
snake_from-IsLowered prev [] = tt
snake_from-IsLowered prev (r ∷ rs) = ground (arith, snake_from-IsLowered (some r) rs)

snake_from_lowered : (prev : Option ℕ) (s : Text) → IsLowered s → snake_from prev s ≡ s
unfolding snake_from
snake_from_lowered prev [] h = refl
snake_from_lowered prev (r ∷ rs) (low, h) = ground (arith, snake_from_lowered (some r) rs h)

-- A derived name holds no capital letter, and deriving a name from it gives the same name.
to_snake-IsLowered : (s : Text) → IsLowered (to_snake s) × (to_snake (to_snake s) ≡ to_snake s)
unfolding to_snake
to_snake-IsLowered s = (
  snake_from-IsLowered none s,
  snake_from_lowered none (snake_from none s) (snake_from-IsLowered none s),
)

-- On a name that begins with two capital letters that no lower-case letter follows, the generator
-- derives another name than the contract.
gen_to_snake-to_snake :
    (a b : ℕ) (s : Text)
    → is_upper_letter a ≡ true
    → is_upper_letter b ≡ true
    → next_lower s ≡ false
    → gen_to_snake (a ∷ b ∷ s) ≢ to_snake (a ∷ b ∷ s)
unfolding gen_to_snake to_snake is_upper_letter
gen_to_snake-to_snake a b s ha hb hs e = ground arith
