-- ===== src/Sim/Conserves.antt =====
-- Matching moves quantity from the remaining to the filled side of an order.
use zkbot.Prelude.{
  ℕ, suc, pos, ◌+ℤ◌, ◌-ℤ◌, ◌≤ℤ◌, leb_ℤ, ◌≡◌, refl, inl, inr, Bool, String, List, [], ◌∷◌, int_laws,
  Bool-cases,
}
use zkbot.Sim.Orders.{SimOrder, MatchResult}
use zkbot.Sim.Reports.{matched, apply_match, apply_matches}
use zkbot.Sim.Walk.{Fits}

-- An order that is not filled beyond its quantity.
pub record IsSimOrder (o : SimOrder) : Type 0 where
  pub remaining_pos : pos 0 ≤ℤ o.remaining_qty
  pub no_overfill : o.filled_qty +ℤ o.remaining_qty ≤ℤ o.req.scaled_qty

pub apply_match_order :
    (o : SimOrder) (m : MatchResult) (linkage : Bool) (id : String)
    → (apply_match o m linkage id).0 ≡ matched o m
unfolding apply_match
apply_match_order o m linkage id = refl

module _ (uuid : ℕ → String) where
  -- However many of the matches are applied, the order keeps its request, and the filled and the
  -- remaining quantity together stay what they were.
  pub apply_matches_conserves :
      (o : SimOrder) (ms : List MatchResult) (linkage : Bool) (n : ℕ)
      → let o' = (apply_matches uuid o ms linkage n).0 in
        (o'.req ≡ o.req) × (o'.filled_qty +ℤ o'.remaining_qty ≡ o.filled_qty +ℤ o.remaining_qty)
  unfolding apply_matches apply_match
  apply_matches_conserves o [] linkage n = (refl, refl)
  apply_matches_conserves o (m ∷ ms) linkage n =
      let rest = apply_matches_conserves (matched o m) ms linkage (suc n) in
      elim (Bool-cases (leb_ℤ (o.remaining_qty -ℤ m.qty) (pos 0))) [
        | inl e ↦ rw e (refl, omega int_laws)
        | inr e ↦ rw e (rest.0, omega (int_laws, rest.1))
      ]

  pub apply_matches_pos :
      (o : SimOrder) (ms : List MatchResult) (linkage : Bool) (n : ℕ)
      → Fits o.remaining_qty ms
      → pos 0 ≤ℤ o.remaining_qty
      → pos 0 ≤ℤ (apply_matches uuid o ms linkage n).0.remaining_qty
  unfolding apply_matches apply_match Fits
  apply_matches_pos o [] linkage n f h = h
  apply_matches_pos o (m ∷ ms) linkage n f h =
      let left : pos 0 ≤ℤ o.remaining_qty -ℤ m.qty = omega (int_laws, f.0) in
      let rest = apply_matches_pos (matched o m) ms linkage (suc n) f.1 left in
      elim (Bool-cases (leb_ℤ (o.remaining_qty -ℤ m.qty) (pos 0))) [
        | inl e ↦ rw e left
        | inr e ↦ rw e rest
      ]

  pub apply_matches-IsSimOrder :
      (o : SimOrder) (ms : List MatchResult) (linkage : Bool) (n : ℕ)
      → Fits o.remaining_qty ms
      → IsSimOrder o
      → IsSimOrder (apply_matches uuid o ms linkage n).0
  apply_matches-IsSimOrder o ms linkage n f v =
      let same = apply_matches_conserves o ms linkage n in
      record {
        remaining_pos = apply_matches_pos o ms linkage n f v.remaining_pos;
        no_overfill = rw (same.0, same.1) v.no_overfill;
      }

  pub apply_match-IsSimOrder :
      (o : SimOrder) (m : MatchResult) (linkage : Bool) (id : String)
      → m.qty ≤ℤ o.remaining_qty
      → IsSimOrder o
      → IsSimOrder (apply_match o m linkage id).0
  unfolding apply_match
  apply_match-IsSimOrder o m linkage id h v = record {
    remaining_pos = omega (int_laws, v.remaining_pos);
    no_overfill = omega (int_laws, v.no_overfill);
  }
