-- ===== src/Watcher/Door/Bounds.antt =====
-- src/watch.go and src/watcher/watcher.go: the interval that the environment asks for.
use autonomy.Base.{
  ℕ, ◌+◌, ◌*◌, ◌^◌, ◌≤◌, ◌≡◌, ◌≢◌, ◌⊎◌, inl, inr, refl, ap, ◌∙◌, true, false, List, [], ◌∷◌, length,
  some, All, arith, if◌then◌else◌, ltb, ◌==◌, is_nil,
}
use native.Mathlib.Nat.{pow-succ'}
use autonomy.Text.{Str, trim_space, is_blank}
use autonomy.Watcher.{Probe, new_watcher, with_interval}
use autonomy.Watcher.Door.{watch_interval, digits, digit, atoi, in_seconds}

-- A number by its decimal digits, the first the highest, and its text.
abbrev pub decimal : List ℕ → ℕ
decimal [] = 0
decimal (d ∷ ds) = d * 10 ^ length ds + decimal ds

abbrev pub text_of : List ℕ → Str
text_of [] = []
text_of (d ∷ ds) = (b'0' + d) ∷ text_of ds

-- What a number of seconds stands for: none is the default of 15, and it is 2 at least.
abbrev pub seconds : ℕ → ℕ
seconds n = if n == 0 then 15000000000 else if ltb n 2 then 2000000000 else n * 1000000000

shift : (n d k : ℕ) → (n * 10 + d) * k ≡ n * (10 * k) + d * k
shift n d k = omega arith

digits-text_of :
    (n : ℕ) (ds : List ℕ)
    → All (λ d. d ≤ 9) ds
    → digits n (text_of ds) ≡ some (n * 10 ^ length ds + decimal ds)
unfolding digits length
digits-text_of n [] h = ground arith
digits-text_of n (d ∷ ds) (low, h) =
    let read : digit (b'0' + d) ≡ some d = ground (arith, low) in
    let power : 10 ^ length (d ∷ ds) ≡ 10 * 10 ^ length ds = pow-succ' 10 (length ds) in
    rw (digits, read)
      (digits-text_of (n * 10 + d) ds h
        ∙ ap some (grind (arith, shift n d (10 ^ length ds), power)))

atoi-text_of :
    (ds : List ℕ)
    → ds ≢ []
    → All (λ d. d ≤ 9) ds
    → decimal ds ≤ 9223372036
    → atoi (text_of ds) ≡ some (decimal ds)
unfolding atoi
atoi-text_of [] some_digit h few = absurd (some_digit refl)
atoi-text_of (d ∷ ds) some_digit h few =
    let read = digits-text_of 0 (d ∷ ds) h in ground (arith, read, h, few)

-- The environment names the digits, in the newer variable, or in the older where the newer is blank.
abbrev pub Names : Str → Str → List ℕ → Type 0
Names value previous ds =
    (trim_space value ≡ text_of ds) ⊎ ((is_blank value ≡ true) × (trim_space previous ≡ text_of ds))

text_of-is_nil : (ds : List ℕ) → ds ≢ [] → is_nil (text_of ds) ≡ false
text_of-is_nil [] some_digit = absurd (some_digit refl)
text_of-is_nil (d ∷ ds) some_digit = refl

watch_interval-Names :
    (value previous : Str) (ds : List ℕ)
    → ds ≢ []
    → Names value previous ds
    → watch_interval value previous ≡ in_seconds (atoi (text_of ds))
unfolding watch_interval is_blank
watch_interval-Names value previous ds some_digit (inl named) =
    let there = text_of-is_nil ds some_digit in rw (named, there, there) refl
watch_interval-Names value previous ds some_digit (inr (blank, named)) =
    let there = text_of-is_nil ds some_digit in rw (blank, named, there) refl

-- A number of seconds that the environment names by its decimal digits, white space round them aside,
-- is the watcher's interval: no wrap-around changes it, 0 stands for 15 seconds, and 1 for 2 seconds.
-- The newer variable goes before the older. (The seconds fit the 63 bits of a duration.)
pub with_interval-watch_interval :
    {W : Type 0} (value previous : Str) (ds : List ℕ) (ps : List (Probe W))
    → ds ≢ []
    → All (λ d. d ≤ 9) ds
    → decimal ds ≤ 9223372036
    → Names value previous ds
    → (with_interval (watch_interval value previous) (new_watcher ps)).interval
      ≡ seconds (decimal ds)
unfolding with_interval new_watcher
with_interval-watch_interval value previous ds ps some_digit h few named =
    rw (watch_interval-Names value previous ds some_digit named, atoi-text_of ds some_digit h few)
      (ground (arith, few))
