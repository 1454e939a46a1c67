-- ===== src/Lock/Resolve/Invariant.antt =====
-- `Lock::resolve` of twoliter/src/project/lock/mod.rs: what holds before each visit of an image, and
-- that it is kept by the visits of a round.
use twoliter.Prelude.{
  ◌≡◌, ◌≢◌, refl, sym, subst, true, some, List, [], ◌∷◌, ◌++◌, Elem, Elem-append, ◌⊎◌, inl, inr,
  Bool-cases, arith, any,
}
use twoliter.Prelude.Classes.{Eq, ◌==◌, nat_eq, list_eq, pair_eq}
use twoliter.Prelude.Maps.{lookup}
use twoliter.Prelude.Results.{ok}
use twoliter.Project.{Version, Image, ProjectImage, Project, as_project_image, project_image_eq}
use twoliter.Lock.{LockedImage, ImageMetadata, Registry, resolve_image}
use twoliter.Lock.Resolve.{Key, key_of, Progress, insert_new}
use twoliter.Lock.Resolve.Reach.{Reachable}

-- The name and the vendor of a locked kit.
abbrev pub locked_key : {V : Type 0} → LockedImage V → Key
locked_key l = (l.name, l.vendor)

abbrev pub IsDistinct : {V : Type 0} → List (LockedImage V) → Type 0
IsDistinct [] = Unit
IsDistinct (l ∷ ls) =
    ((k : LockedImage _) → Elem k ls → locked_key l ≢ locked_key k) × IsDistinct ls

pub IsDistinct-append :
    {V : Type 0} (ls : List (LockedImage V)) (l : LockedImage V)
    → IsDistinct ls
    → ((k : LockedImage V) → Elem k ls → locked_key k ≢ locked_key l)
    → IsDistinct (ls ++ l ∷ [])
IsDistinct-append [] l h new = (λ k m. elim m [ ], tt)
IsDistinct-append (k ∷ ls) l (fresh, h) new = (
  λ j m. elim (Elem-append j ls (l ∷ []) m) [
    | inl old ↦ fresh j old
    | inr (inl e) ↦ subst (λ x. locked_key k ≢ locked_key x) (sym e) (new k (inl refl))
    | inr (inr e) ↦ elim e [ ]
  ],
  IsDistinct-append ls l h (λ j m. new j (inr m)),
)

module _ {A : Type 0} ⦃e : Eq A⦄ where
  any_same : (a : A) (set : List A) → any (λ b. b == a) set ≡ true → Elem a set
  any_same a [] h = ground arith
  any_same a (b ∷ set) h = elim (Bool-cases (b == a)) [
    | inl same ↦ inl (sym ((e.eqb_iff b a).0 same))
    | inr other ↦ inr (any_same a set (ground arith))
  ]

  pub Elem-insert_new : (a : A) (set : List A) → Elem a (insert_new a set)
  unfolding insert_new
  Elem-insert_new a set = elim (Bool-cases (any (λ b. b == a) set)) [
    | inl old ↦ rw old (any_same a set old)
    | inr new ↦ rw new (inl refl)
  ]

  pub Elem-insert_new_old : (a b : A) (set : List A) → Elem b set → Elem b (insert_new a set)
  unfolding insert_new
  Elem-insert_new_old a b set m = elim (Bool-cases (any (λ b. b == a) set)) [
    | inl old ↦ rw old m
    | inr new ↦ rw new (inr m)
  ]

module _ {V L : Type 0} ⦃v : Version V⦄ (p : Project V L) (r : Registry V) where
  -- The image has been locked.
  abbrev pub IsDone : Progress V → ProjectImage V → Type 0
  IsDone s b = lookup (key_of b) s.known ≡ some b.image.version

  abbrev pub IsCovered : List (ProjectImage V) → Progress V → ProjectImage V → Type 0
  IsCovered pending s b = Elem b pending ⊎ (Elem b s.remaining ⊎ IsDone s b)

  -- The image of a dependency is covered.
  abbrev pub HasCovered : List (ProjectImage V) → Progress V → Image V → Type 0
  HasCovered pending s image =
      (b : ProjectImage V) × (as_project_image p image ≡ some b) × IsCovered pending s b

  abbrev pub HasSdk : Progress V → Image V → Type 0
  HasSdk s image = (b : ProjectImage V) × (as_project_image p image ≡ some b) × Elem b s.sdk_set

  -- The image is locked, with its SDK and its kits.
  abbrev pub HasEntry : List (ProjectImage V) → Progress V → ProjectImage V → Type 0
  HasEntry pending s a =
      (l : LockedImage V) × (m : ImageMetadata V) × (resolve_image r a ≡ ok (l, m))
      × Elem l s.locked
      × HasSdk s m.sdk
      × ((dep : Image V) → Elem dep m.kits → HasCovered pending s dep)

  pub record Invariant (pending : List (ProjectImage V)) (s : Progress V) : Type 0 where
    pub known_entry :
        (k : Key) (w : V)
        → lookup k s.known ≡ some w
        → (a : ProjectImage V) × Reachable p r a
          × (key_of a ≡ k)
          × (a.image.version ≡ w)
          × HasEntry pending s a
    pub locked_origin :
        (l : LockedImage V)
        → Elem l s.locked
        → (a : ProjectImage V) × (m : ImageMetadata V) × Reachable p r a
          × (resolve_image r a ≡ ok (l, m))
          × IsDone s a
    pub pending_reached : (b : ProjectImage V) → Elem b pending → Reachable p r b
    pub remaining_reached : (b : ProjectImage V) → Elem b s.remaining → Reachable p r b
    pub direct_covered : (image : Image V) → Elem image p.kit → HasCovered pending s image
    pub direct_sdk : (image : Image V) → p.sdk ≡ some image → HasSdk s image
    pub distinct : IsDistinct s.locked
