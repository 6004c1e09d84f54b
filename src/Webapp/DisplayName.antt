-- ===== src/Webapp/DisplayName.antt =====
-- The display names of webapp/src/utils/randomUserIds.tsx. `Math.random()` is a fraction `a / b` below one,
-- which is an argument.
use demo_app.Base.{
  String, ℕ, zero, suc, ◌+◌, ◌-◌, ◌*◌, ◌/◌, ◌<◌, ◌≤◌, List, [], ◌∷◌, ◌≡◌, ◌↔◌, refl, Option, some,
  arith, length, get_elem?,
}
use native.Mathlib.Nat.{div-lt_iff_lt-mul, le-div_iff_mul-le, div-eq_of_lt}

abbrev pub user_ids : List String
user_ids =
    "Harry Potter" ∷ "Hedwig" ∷ "Voldemort" ∷ "Hermione" ∷ "Viktor Krum" ∷ "Ron Weasely" ∷ "Ginny"
    ∷ "Seamus Finnigan" ∷ "Nagini" ∷ "Dobby" ∷ "Nymphadora Tonks" ∷ "Sirius Black" ∷ "Luna Lovegood"
    ∷ "Peter Pettigrew" ∷ "Moaning Myrtle" ∷ "Kreacher" ∷ "Crookshanks" ∷ "Dumbledore" ∷ "Snape"
    ∷ "Draco" ∷ "Lucius Malfoy" ∷ "Bellatrix Lestrange" ∷ "Anthony Goldstein" ∷ "Neville Longbottom"
    ∷ "Peeves" ∷ "McGonagall" ∷ "Fleur Delacour" ∷ "James Potter" ∷ "Newt Scamander" ∷ "Lily Potter"
    ∷ "Professor Flitwick" ∷ "Alastor Moody" ∷ "Argus Filch" ∷ "Trelawney" ∷ "Rita Skeeter"
    ∷ "Cornelius Fudge" ∷ []

-- `Math.ceil`
unfoldable pub ceil : ℕ → ℕ → ℕ
ceil a b = (a + (b - 1)) / b

unfoldable pub random_index : ℕ → ℕ → ℕ
unfolding ceil
random_index a b = ceil (a * (length user_ids - 1)) b

-- `userIds[index]`, which is undefined out of bounds.
unfoldable pub get_random_display_name : ℕ → ℕ → Option String
unfolding random_index
get_random_display_name a b = get_elem? user_ids (random_index a b)

get_elem?-lt :
    {A : Type 0} (xs : List A) (i : ℕ) → i < length xs → (x : A) × (get_elem? xs i ≡ some x)
get_elem?-lt [] i h = absurd (omega (arith, h))
get_elem?-lt (x ∷ xs) zero h = (x, refl)
get_elem?-lt (x ∷ xs) (suc i) h = get_elem?-lt xs i (omega (arith, h))

random_index_lt : (a b : ℕ) → a < b → random_index a b < 36
unfolding random_index ceil
random_index_lt a b h = (div-lt_iff_lt-mul (omega (arith, h))).1 (omega (arith, h))

random_index-pos : (a b : ℕ) → suc a < b → 1 ≤ random_index (suc a) b
unfolding random_index ceil
random_index-pos a b h = (le-div_iff_mul-le (omega (arith, h))).1 (omega (arith, h))

random_index-zero : (b : ℕ) → 0 < b → random_index 0 b ≡ 0
unfolding random_index ceil
random_index-zero b h = div-eq_of_lt (omega (arith, h))

random_index_iff : (a b : ℕ) → a < b → (random_index a b ≡ 0) ↔ (a ≡ 0)
random_index_iff zero b h = (λ e. refl, λ e. random_index-zero b h)
random_index_iff (suc a) b h =
    (λ e. absurd (omega (arith, e, random_index-pos a b h)), λ e. absurd (omega (arith, e)))

-- Whatever `Math.random()` yields, the display name is one of the list and never undefined. The first name
-- of the list is only chosen when `Math.random()` is exactly 0.
pub get_random_display_name-some :
    (a b : ℕ)
    → a < b
    → ((name : String) × (get_random_display_name a b ≡ some name))
      × ((random_index a b ≡ 0) ↔ (a ≡ 0))
unfolding get_random_display_name
get_random_display_name-some a b h =
    (get_elem?-lt user_ids (random_index a b) (random_index_lt a b h), random_index_iff a b h)
