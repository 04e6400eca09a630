-- ===== src/Sokel/Workers/Limits.antt =====
-- The states that a handler of `concurrentHandler` reaches, in sokel/transport_nats.go.
use sokel_plugin_sdk.Base.{
  ℕ, zero, suc, ◌+◌, ◌≤◌, List, [], ◌∷◌, ◌++◌, length, length-append, ◌==◌, if◌then◌else◌, ◌≡◌,
  refl, ap, ◌∙◌, ◌⊎◌, inl, inr, arith, ℤ, pos, negsuc,
}
use sokel_plugin_sdk.Sokel.Workers.{
  Semaphore, uncapped, capped, semaphore_of, Pool, Step, start_uncapped, start_capped, end_uncapped,
  end_capped, Reach, at_start, after,
}

-- The channel has one element for each call that runs, and no more than its capacity.
abbrev IsHeld : ℕ → Pool → Type 0
IsHeld limit p = (p.slots ≡ length p.running) × (p.slots ≤ limit)

removed : (m : ℕ) (rs rs' : List ℕ) → length (rs ++ m ∷ rs') ≡ suc (length (rs ++ rs'))
removed m rs rs' = omega (arith, length-append rs (m ∷ rs'), length-append rs rs')

Step-IsHeld : (limit : ℕ) (p q : Pool) → IsHeld limit p → Step (capped limit) p q → IsHeld limit q
Step-IsHeld limit p q (one_each, below) (start_uncapped m ms e w) = absurd (ground arith)
Step-IsHeld limit p q (one_each, below) (start_capped m l ms e w room) = (omega arith, ground arith)
Step-IsHeld limit p q (one_each, below) (end_uncapped m rs rs' e w) = absurd (ground arith)
Step-IsHeld limit p q (one_each, below) (end_capped m n l rs rs' e w held) =
    let before = ap length w ∙ removed m rs rs' in (omega arith, omega arith)

Reach-IsHeld : (limit : ℕ) (ms : List ℕ) (p : Pool) → Reach (capped limit) ms p → IsHeld limit p
Reach-IsHeld limit ms p at_start = (refl, omega arith)
Reach-IsHeld limit ms q (after {p} r step) = Step-IsHeld limit p q (Reach-IsHeld limit ms p r) step

-- With a positive limit, whatever messages arrive and however the calls interleave, no more calls run
-- at the same time than the limit says.
pub Reach-limit :
    (n : ℕ) (ms : List ℕ) (p : Pool)
    → Reach (semaphore_of (pos (suc n))) ms p
    → length p.running ≤ suc n
unfolding semaphore_of
Reach-limit n ms p r = let (one_each, below) = Reach-IsHeld (suc n) ms p r in omega arith

-- How often a message occurs.
abbrev pub count : ℕ → List ℕ → ℕ
count m [] = 0
count m (x ∷ xs) = (if m == x then 1 else 0) + count m xs

count-append : (m : ℕ) (xs ys : List ℕ) → count m (xs ++ ys) ≡ count m xs + count m ys
count-append m [] ys = omega arith
count-append m (x ∷ xs) ys = omega (arith, count-append m xs ys)

-- How often a message waits, runs or has ended.
abbrev census : ℕ → Pool → ℕ
census m p = count m p.waiting + (count m p.running + count m p.ended)

count_removed :
    (k m : ℕ) (rs rs' : List ℕ) → count k (rs ++ m ∷ rs') ≡ count k (m ∷ []) + count k (rs ++ rs')
count_removed k m rs rs' = omega (arith, count-append k rs (m ∷ rs'), count-append k rs rs')

census-Step : (sem : Semaphore) (k : ℕ) (p q : Pool) → Step sem p q → census k q ≡ census k p
census-Step sem k p q (start_uncapped m ms e w) = let before = ap (count k) w in omega arith
census-Step sem k p q (start_capped m l ms e w room) = let before = ap (count k) w in omega arith
census-Step sem k p q (end_uncapped m rs rs' e w) =
    let before = ap (count k) w ∙ count_removed k m rs rs' in omega arith
census-Step sem k p q (end_capped m n l rs rs' e w held) =
    let before = ap (count k) w ∙ count_removed k m rs rs' in omega arith

-- No message is lost and none is handled twice, with a cap or without: each one waits, runs or has
-- ended as often as it arrived.
census-Reach :
    (sem : Semaphore) (ms : List ℕ) (p : Pool) → Reach sem ms p → (k : ℕ) → census k p ≡ count k ms
census-Reach sem ms p at_start k = omega arith
census-Reach sem ms q (after {p} r step) k = census-Step sem k p q step ∙ census-Reach sem ms p r k

-- A state from which nothing is left to do.
abbrev pub IsIdle : Pool → Type 0
IsIdle p = (p.waiting ≡ []) × (p.running ≡ [])

first_end :
    (sem : Semaphore) (p : Pool) (m : ℕ) (rs : List ℕ)
    → p.running ≡ m ∷ rs
    → ((l : ℕ) → sem ≡ capped l → p.slots ≡ length p.running)
    → (q : Pool) × Step sem p q
first_end uncapped p m rs w held = (_, end_uncapped m [] rs refl w)
first_end (capped l) p m rs w held =
    (_, end_capped m (length rs) l [] rs refl w (held l refl ∙ ap length w))

held_at :
    (sem : Semaphore) (ms : List ℕ) (p : Pool)
    → Reach sem ms p
    → (l : ℕ) → sem ≡ capped l
    → p.slots ≡ length p.running
held_at uncapped ms p r l e = absurd (ground arith)
held_at (capped k) ms p r l e = (Reach-IsHeld k ms p r).0

progress_from :
    (sem : Semaphore) (p : Pool) (waiting running : List ℕ)
    → p.waiting ≡ waiting
    → p.running ≡ running
    → ((l : ℕ) → sem ≡ capped l → 1 ≤ l)
    → ((l : ℕ) → sem ≡ capped l → p.slots ≡ length p.running)
    → (IsIdle p) ⊎ ((q : Pool) × Step sem p q)
progress_from sem p ws (m ∷ rs) w r some_room held = inr (first_end sem p m rs r held)
progress_from sem p [] [] w r some_room held = inl (w, r)
progress_from uncapped p (m ∷ ms) [] w r some_room held = inr (_, start_uncapped m ms refl w)
progress_from (capped l) p (m ∷ ms) [] w r some_room held =
    let empty_channel = held l refl ∙ ap length r in
    let room = some_room l refl in inr (_, start_capped m l ms refl w (omega arith))

semaphore_of_room : (limit : ℤ) (l : ℕ) → semaphore_of limit ≡ capped l → 1 ≤ l
unfolding semaphore_of
semaphore_of_room (pos zero) l e = absurd (ground arith)
semaphore_of_room (pos (suc n)) l e = ground arith
semaphore_of_room (negsuc n) l e = absurd (ground arith)

-- The handler never gets stuck, whatever the limit: in every state that it reaches a further step is
-- possible, unless no message waits and no call runs.
pub Reach-progress :
    (limit : ℤ) (ms : List ℕ) (p : Pool)
    → Reach (semaphore_of limit) ms p
    → IsIdle p ⊎ ((q : Pool) × Step (semaphore_of limit) p q)
Reach-progress limit ms p r =
    progress_from (semaphore_of limit) p p.waiting p.running refl refl (semaphore_of_room limit)
      (held_at (semaphore_of limit) ms p r)
