-- ===== src/Queries/HeatMap/Dates.antt =====
-- Inequalities of the dates of a row and its overlays.
use sloop.Base.{true, false, ◌&&◌, ◌≡◌, ◌∙◌, ap, arith, subst}
use sloop.Base.Int.{ℤ, pos, ◌+ℤ◌, ◌-ℤ◌, ◌≤ℤ◌, ◌<ℤ◌, ltb_ℤ, leb_ℤ, int_laws}
use sloop.Queries.HeatMap.{limit}

pub add_zero : (a : ℤ) → a +ℤ pos 0 ≡ a
add_zero a = omega int_laws

pub cancel : (s f : ℤ) → s +ℤ (f -ℤ s) ≡ f
cancel s f = omega int_laws

pub shifted : (a b c e : ℤ) → a +ℤ b ≡ c → a +ℤ e +ℤ (b -ℤ e) ≡ c
shifted a b c e h = let q : a +ℤ e +ℤ (b -ℤ e) ≡ a +ℤ b = omega int_laws in q ∙ h

pub shortened : (a b c e : ℤ) → a +ℤ b ≡ c → a +ℤ (b -ℤ e) ≡ c -ℤ e
shortened a b c e h = let q : a +ℤ (b -ℤ e) ≡ a +ℤ b -ℤ e = omega int_laws in q ∙ ap (λ x. x -ℤ e) h

pub positive : (a e : ℤ) → leb_ℤ (a -ℤ e) (pos 0) ≡ false → pos 0 ≤ℤ a -ℤ e
positive a e h = ground (arith, h)

-- The parts of an equation that `omega` reads.
pub parts_of : (a b : ℤ) → a ≡ b → (a ≤ℤ b) × (b ≤ℤ a)
parts_of a b h = (subst (λ x. a ≤ℤ x) h (omega arith), subst (λ x. x ≤ℤ a) h (omega arith))

pub leb_ℤ→le : (a b : ℤ) → leb_ℤ a b ≡ true → a ≤ℤ b
leb_ℤ→le a b h = ground (arith, h)

pub not_leb_ℤ : (a b : ℤ) → leb_ℤ a b ≡ false → b ≤ℤ a
not_leb_ℤ a b h = ground (arith, h)

-- An overlay with nothing left ends where the row begins.
pub nothing_left :
    (s d c f : ℤ) → s +ℤ d ≡ c → f ≤ℤ c → leb_ℤ (d -ℤ (f -ℤ s)) (pos 0) ≡ true → c ≡ f
nothing_left s d c f h b q =
    let (p1, p2) = parts_of (s +ℤ d) c h in
    let p3 = leb_ℤ→le (d -ℤ (f -ℤ s)) (pos 0) q in omega (int_laws, p1, p2, p3, b)

pub not_moved : (e : ℤ) → e ≤ℤ pos 60 → (ltb_ℤ (pos 0) e && ltb_ℤ e limit) ≡ false → e ≤ℤ pos 0
not_moved e h q = ground (arith, h, q)

pub sub_not_positive : (a b : ℤ) → a -ℤ b ≤ℤ pos 0 → a ≤ℤ b
sub_not_positive a b h = omega (int_laws, h)

-- At most a minute is cut off.
pub short : (s d c f : ℤ) → s +ℤ d ≡ c → d ≤ℤ pos 60 → f ≤ℤ c → f -ℤ s ≤ℤ pos 60
short s d c f h m b = let (p1, p2) = parts_of (s +ℤ d) c h in omega (int_laws, p1, p2, m, b)

pub overshoot : (s d c f : ℤ) → s +ℤ d ≡ c → d ≤ℤ pos 60 → s ≤ℤ f → c -ℤ f ≤ℤ pos 60
overshoot s d c f h m b = let (p1, p2) = parts_of (s +ℤ d) c h in omega (int_laws, p1, p2, m, b)

pub moved_positive : (e : ℤ) → (ltb_ℤ (pos 0) e && ltb_ℤ e limit) ≡ true → pos 0 <ℤ e
moved_positive e q = ground (arith, q)

pub is_moved : (e : ℤ) → pos 0 <ℤ e → e <ℤ limit → (ltb_ℤ (pos 0) e && ltb_ℤ e limit) ≡ true
is_moved e p q = ground (arith, p, q)

pub le→leb_ℤ : (a b : ℤ) → a ≤ℤ b → leb_ℤ a b ≡ true
le→leb_ℤ a b h = ground (arith, h)

pub shrinks : (d e : ℤ) → d ≤ℤ pos 60 → (ltb_ℤ (pos 0) e && ltb_ℤ e limit) ≡ true → d -ℤ e ≤ℤ pos 60
shrinks d e m q = let p = moved_positive e q in omega (int_laws, m, p)
