-- ===== src/Base/Perms.antt =====
-- What holds of a list holds of a list with the same elements in another order.
use Prim.Native.Nat.{ℕ, suc}
use mathlib.Core.Path.{◌≡◌, refl, sym, ap, ◌∙◌, subst}
use mathlib.Core.List.{List, [], ◌∷◌, ◌++◌, Permᴰ, append_assoc, append-nil}
use odns_measurement_tools.Base.Lists.{length, All, NotIn, Distinct}

pub All-Permᴰ {ℓ κ} :
    {A : Type ℓ} (P : A → Type κ) {xs ys : List A} → Permᴰ xs ys → All P xs → All P ys
All-Permᴰ P Permᴰ.nil h = tt
All-Permᴰ P (Permᴰ.cons e p) (h, hs) = (subst P e h, All-Permᴰ P p hs)
All-Permᴰ P (Permᴰ.swap e e') h = (subst P e' h.1.0, (subst P e h.0, h.1.1))
All-Permᴰ P (Permᴰ.trans p q) h = All-Permᴰ P q (All-Permᴰ P p h)

pub length-Permᴰ {ℓ} : {A : Type ℓ} {xs ys : List A} → Permᴰ xs ys → length xs ≡ length ys
length-Permᴰ Permᴰ.nil = refl
length-Permᴰ (Permᴰ.cons e p) = ap suc (length-Permᴰ p)
length-Permᴰ (Permᴰ.swap e e') = refl
length-Permᴰ (Permᴰ.trans p q) = length-Permᴰ p ∙ length-Permᴰ q

pub Distinct-Permᴰ : {xs ys : List ℕ} → Permᴰ xs ys → Distinct xs → Distinct ys
Distinct-Permᴰ Permᴰ.nil h = tt
Distinct-Permᴰ (Permᴰ.cons {l₂ = ys} e p) (fresh, h) =
    (subst (λ x. NotIn x ys) e (All-Permᴰ _ p fresh), Distinct-Permᴰ p h)
Distinct-Permᴰ (Permᴰ.swap {l = l} e e') ((ne, fresh), (fresh', h)) = (
  ((λ q. ne (e' ∙ sym q ∙ sym e)), subst (λ y. NotIn y l) e' fresh'),
  (subst (λ x. NotIn x l) e fresh, h),
)
Distinct-Permᴰ (Permᴰ.trans p q) h = Distinct-Permᴰ q (Distinct-Permᴰ p h)

pub All-imp {ℓ κ μ} :
    {A : Type ℓ} {P : A → Type κ} {Q : A → Type μ} (xs : List A)
    → ((x : A) → P x → Q x)
    → All P xs
    → All Q xs
All-imp [] f h = tt
All-imp (x ∷ xs) f (p, h) = (f x p, All-imp xs f h)

pub Permᴰ-reflexive {ℓ} : {A : Type ℓ} (xs : List A) → Permᴰ xs xs
Permᴰ-reflexive [] = Permᴰ.nil
Permᴰ-reflexive (x ∷ xs) = Permᴰ.cons refl (Permᴰ-reflexive xs)

Permᴰ-append_left {ℓ} :
    {A : Type ℓ} (zs : List A) {xs ys : List A} → Permᴰ xs ys → Permᴰ (zs ++ xs) (zs ++ ys)
Permᴰ-append_left [] p = p
Permᴰ-append_left (z ∷ zs) p = Permᴰ.cons refl (Permᴰ-append_left zs p)

pub Permᴰ-append {ℓ} :
    {A : Type ℓ} {xs ys zs ws : List A} → Permᴰ xs ys → Permᴰ zs ws → Permᴰ (xs ++ zs) (ys ++ ws)
Permᴰ-append Permᴰ.nil q = q
Permᴰ-append (Permᴰ.cons e p) q = Permᴰ.cons e (Permᴰ-append p q)
Permᴰ-append (Permᴰ.swap {l = l} e e') q =
    Permᴰ.trans (Permᴰ.swap e e') (Permᴰ.cons refl (Permᴰ.cons refl (Permᴰ-append_left l q)))
Permᴰ-append {zs = zs} (Permᴰ.trans p p') q =
    Permᴰ.trans (Permᴰ-append p (Permᴰ-reflexive zs)) (Permᴰ-append p' q)

middle {ℓ} : {A : Type ℓ} (x : A) (ys zs : List A) → Permᴰ (x ∷ (ys ++ zs)) (ys ++ x ∷ zs)
middle x [] zs = Permᴰ-reflexive (x ∷ zs)
middle x (y ∷ ys) zs = Permᴰ.trans (Permᴰ.swap refl refl) (Permᴰ.cons refl (middle x ys zs))

Permᴰ-append_comm {ℓ} : {A : Type ℓ} (xs ys : List A) → Permᴰ (xs ++ ys) (ys ++ xs)
Permᴰ-append_comm [] ys = subst (Permᴰ ys) (sym (append-nil ys)) (Permᴰ-reflexive ys)
Permᴰ-append_comm (x ∷ xs) ys =
    Permᴰ.trans (Permᴰ.cons refl (Permᴰ-append_comm xs ys)) (middle x ys xs)

-- The two lists in the middle change places.
pub Permᴰ-append_middle {ℓ} :
    {A : Type ℓ} (ps qs rs us : List A)
    → Permᴰ ((ps ++ qs) ++ (rs ++ us)) ((ps ++ rs) ++ (qs ++ us))
Permᴰ-append_middle ps qs rs us =
    subst (λ t. Permᴰ t ((ps ++ rs) ++ (qs ++ us))) (sym (append_assoc ps qs (rs ++ us)))
      (subst (Permᴰ (ps ++ (qs ++ (rs ++ us)))) (sym (append_assoc ps rs (qs ++ us))) (
        Permᴰ-append_left ps (
          subst (λ t. Permᴰ t (rs ++ (qs ++ us))) (append_assoc qs rs us)
            (subst (Permᴰ ((qs ++ rs) ++ us)) (append_assoc rs qs us)
              (Permᴰ-append (Permᴰ-append_comm qs rs) (Permᴰ-reflexive us))))))
