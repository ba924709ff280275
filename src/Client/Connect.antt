-- ===== src/Client/Connect.antt =====
-- `connect_to_vpi` and `disconnect` of vpi/jtag_vpi_advanced.cpp. What the calls of `socket` and `connect` return is given; the pauses are
-- left out.
use jtag.Prelude.{
  ℕ, zero, suc, ◌+◌, ◌-◌, ◌<◌, ◌≤◌, ◌≡◌, refl, ap, sym, Bool, Bool-cases, inl, inr, ◌&&◌, ◌||◌,
  take, true, false, List, [], ◌∷◌, ltb, if◌then◌else◌, arith,
}

abbrev pub max_connects : ℕ
max_connects = 10

-- The loop, with the results of the calls of `connect` to come. It returns whether it has connected,
-- and the number of calls.
unfoldable pub retry : ℕ → List Bool → Bool × ℕ
retry retries [] = (false, retries)
retry retries (r ∷ rs) = elim (ltb retries max_connects) [
  | true ↦ elim r [ true ↦ (true, retries + 1) | false ↦ retry (retries + 1) rs ]
  | false ↦ (false, retries)
]

unfoldable pub connect_to_vpi : Bool → List Bool → Bool × ℕ
unfolding retry
connect_to_vpi socket_made rs = elim socket_made [ true ↦ retry 0 rs | false ↦ (false, 0) ]

-- The sockets that are open after `disconnect`, by whether one was made; the destructor of the class
-- closes none.
unfoldable pub disconnect : Bool → ℕ → ℕ
disconnect socket_made open_socks = if socket_made then open_socks - 1 else open_socks

abbrev pub any_true : List Bool → Bool
any_true [] = false
any_true (r ∷ rs) = r || any_true rs

take-nil : (n : ℕ) → take {A = Bool} n [] ≡ []
take-nil zero = refl
take-nil (suc n) = refl

take-step :
    (k : ℕ) (r : Bool) (rs : List Bool)
    → k < max_connects
    → take (max_connects - k) (r ∷ rs) ≡ r ∷ take (max_connects - (k + 1)) rs
take-step k r rs h =
    ap (λ n. take n (r ∷ rs)) {x = max_connects - k} {y = suc (max_connects - (k + 1))}
      (omega arith)

retry-lem :
    (k : ℕ) (rs : List Bool)
    → k ≤ max_connects
    → ((retry k rs).0 ≡ any_true (take (max_connects - k) rs)) × ((retry k rs).1 ≤ max_connects)
unfolding retry
retry-lem k [] h = (sym (ap any_true (take-nil (max_connects - k))), h)
retry-lem k (r ∷ rs) h = elim (Bool-cases (ltb k max_connects)) [
  | inl more ↦ ground (arith, take-step k r rs, retry-lem (k + 1) rs)
  | inr over ↦
      let last : max_connects - k ≡ 0 = ground arith in
      ground (arith, ap (λ n. any_true (take n (r ∷ rs))) last)
]

-- Connecting ends after ten calls of `connect` at most, and succeeds exactly if the socket was made
-- and one of the first ten calls succeeds.
pub connect_to_vpi_lem :
    (socket_made : Bool) (rs : List Bool)
    → ((connect_to_vpi socket_made rs).0 ≡ (socket_made && any_true (take max_connects rs)))
      × ((connect_to_vpi socket_made rs).1 ≤ max_connects)
unfolding connect_to_vpi
connect_to_vpi_lem true rs = retry-lem 0 rs (omega arith)
connect_to_vpi_lem false rs = (refl, omega arith)
