-- ===== src/Channel/Window.antt =====
-- A `std::array` read from a position on, going round at its end.
use sheepcoro.Base.{
  ℕ, zero, suc, ◌+◌, ◌-◌, ◌%◌, ◌<◌, ◌≡◌, ◌≢◌, refl, sym, ap, ◌∙◌, List, [], ◌∷◌, ◌++◌, arith,
  is_nil, length, dec_lt, ◌==◌,
}
use native.Mathlib.Nat.{mod-add-mod, mod-eq_of_lt, mod-eq-sub-mod, mod-lt}

module _ {ℓ} {A : Type ℓ} where
  -- `m_array[i]`; the bound `i < capacity` is a matter of the invariants.
  abbrev pub get_or : List A → ℕ → A → A
  get_or [] i d = d
  get_or (a ∷ buf) zero d = a
  get_or (a ∷ buf) (suc i) d = get_or buf i d

  -- `m_array[i] = v`
  abbrev pub set : List A → ℕ → A → List A
  set [] i v = []
  set (a ∷ buf) zero v = v ∷ buf
  set (a ∷ buf) (suc i) v = a ∷ set buf i v

  pub length-set : (buf : List A) (i : ℕ) (v : A) → length (set buf i v) ≡ length buf
  length-set [] i v = refl
  length-set (a ∷ buf) zero v = refl
  length-set (a ∷ buf) (suc i) v = omega (arith, length-set buf i v)

  get_or-set_self : (buf : List A) {i : ℕ} (v d : A) → i < length buf → get_or (set buf i v) i d ≡ v
  get_or-set_self [] v d h = absurd (omega arith)
  get_or-set_self (a ∷ buf) {i = zero} v d h = refl
  get_or-set_self (a ∷ buf) {i = suc i} v d h = get_or-set_self buf v d (omega arith)

  get_or-set_ne :
      (buf : List A) (i j : ℕ) (v d : A) → i ≢ j → get_or (set buf i v) j d ≡ get_or buf j d
  get_or-set_ne [] i j v d ne = refl
  get_or-set_ne (a ∷ buf) zero zero v d ne = absurd (ne refl)
  get_or-set_ne (a ∷ buf) zero (suc j) v d ne = refl
  get_or-set_ne (a ∷ buf) (suc i) zero v d ne = refl
  get_or-set_ne (a ∷ buf) (suc i) (suc j) v d ne = get_or-set_ne buf i j v d (λ e. ne (ap suc e))

module _ {ℓ} {A : Type ℓ} (d : A) (cap : ℕ) where
  -- The `n` values from position `h` on.
  abbrev pub window : List A → ℕ → ℕ → List A
  window buf h zero = []
  window buf h (suc n) = get_or buf (h % cap) d ∷ window buf (h + 1) n

  pub length-window : (buf : List A) (h n : ℕ) → length (window buf h n) ≡ n
  length-window buf h zero = refl
  length-window buf h (suc n) = ap suc (length-window buf (h + 1) n)

  pub is_nil-window : (buf : List A) (h n : ℕ) → is_nil (window buf h n) ≡ (n == 0)
  is_nil-window buf h zero = refl
  is_nil-window buf h (suc n) = ground arith

  -- Only the position modulo the capacity counts.
  pub window-mod : (buf : List A) (h k n : ℕ) → h % cap ≡ k % cap → window buf h n ≡ window buf k n
  window-mod buf h k zero e = refl
  window-mod buf h k (suc n) e = rw (e, window-mod buf (h + 1) (k + 1) n shift)
    where
      shift : (h + 1) % cap ≡ (k + 1) % cap
      shift = sym (mod-add-mod h cap 1) ∙ ap (λ t. (t + 1) % cap) e ∙ mod-add-mod k cap 1

  -- Fewer than `cap` steps do not come back to the start.
  round_ne : (h n : ℕ) → 0 < cap → suc n < cap → (h + suc n) % cap ≢ h % cap
  round_ne h n pos lt e = elim (dec_lt (h % cap + suc n) cap) [
    | yes p ↦ omega (arith, mod-add-mod h cap (suc n), mod-eq_of_lt p)
    | no p ↦ omega (
      arith,
      mod-add-mod h cap (suc n),
      mod-lt h pos,
      mod-eq-sub-mod {n = h % cap + suc n} {m = cap} (omega arith),
      mod-eq_of_lt {n = h % cap + suc n - cap} {m = cap} (omega (arith, mod-lt h pos)),
    )
  ]

  -- A write just behind the window extends it.
  pub window-set :
      (buf : List A) (h n i : ℕ) (v : A)
      → length buf ≡ cap
      → n < cap
      → i ≡ (h + n) % cap
      → window (set buf i v) h (suc n) ≡ window buf h n ++ v ∷ []
  window-set buf h zero i v len lt e =
      let here : i ≡ h % cap = e ∙ ap (λ t. t % cap) (omega arith) in
      rw (here, get_or-set_self buf {i = h % cap} v d (omega (arith, mod-lt h lt)))
  window-set buf h (suc n) i v len lt e = rw (
    get_or-set_ne buf i (h % cap) v d (λ p. round_ne h n (omega arith) lt (sym e ∙ p)),
    window-set buf (h + 1) n i v len (omega arith) (e ∙ ap (λ t. t % cap) (omega arith)),
  )
