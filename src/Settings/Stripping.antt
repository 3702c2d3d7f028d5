-- ===== src/Settings/Stripping.antt =====
-- str.strip on a text that it already stripped, and the texts of a list of objects.
use Prim.Native.Char.{code}
use django_base_x.Prelude.{
  String, false, List, [], ◌∷◌, some, ◌≡◌, refl, Bool-cases, inl, inr, is_empty, arith,
}
use django_base_x.Settings.Objects.{names_of, objects_of, text_of}
use django_base_x.Settings.Texts.{is_space, lstrip, rstrip, strip, strip_all}

-- The text is empty or starts with no white space.
StartsSolid : String → Type 0
StartsSolid String.[] = Unit
StartsSolid (String.◌∷◌ c s) = is_space (code c) ≡ false

lstrip-StartsSolid : (s : String) → StartsSolid (lstrip s)
unfolding lstrip StartsSolid
lstrip-StartsSolid String.[] = tt
lstrip-StartsSolid (String.◌∷◌ c s) = elim (Bool-cases (is_space (code c))) [
  | inl e ↦ rw e (lstrip-StartsSolid s)
  | inr e ↦ rw e e
]

rstrip-StartsSolid : (s : String) → StartsSolid s → StartsSolid (rstrip s)
unfolding rstrip StartsSolid
rstrip-StartsSolid String.[] solid = tt
rstrip-StartsSolid (String.◌∷◌ c s) solid = elim (Bool-cases (is_empty (rstrip s))) [
  | inl e ↦ rw (e, solid) solid
  | inr e ↦ rw e solid
]

lstrip-solid : (s : String) → StartsSolid s → lstrip s ≡ s
unfolding lstrip StartsSolid
lstrip-solid String.[] solid = refl
lstrip-solid (String.◌∷◌ c s) solid = rw solid refl

rstrip-rstrip : (s : String) → rstrip (rstrip s) ≡ rstrip s
unfolding rstrip
rstrip-rstrip String.[] = refl
rstrip-rstrip (String.◌∷◌ c s) = ground (arith, rstrip-rstrip s)

pub strip-strip : (s : String) → strip (strip s) ≡ strip s
unfolding strip
strip-strip s =
    rw (lstrip-solid (rstrip (lstrip s)) (rstrip-StartsSolid (lstrip s) (lstrip-StartsSolid s)))
      (rstrip-rstrip (lstrip s))

pub strip_all-strip_all : (names : List String) → strip_all (strip_all names) ≡ strip_all names
unfolding strip_all
strip_all-strip_all [] = refl
strip_all-strip_all (name ∷ names) = ground (arith, strip-strip name, strip_all-strip_all names)

module _ (N : Type 0) where
  pub names_of-objects_of : (names : List String) → names_of (objects_of {N = N} names) ≡ some names
  unfolding names_of objects_of text_of
  names_of-objects_of [] = refl
  names_of-objects_of (name ∷ names) = rw (names_of-objects_of names) refl
