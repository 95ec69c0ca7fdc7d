-- ===== src/Page/Decode.antt =====
-- Reading back what writeLayoutPage wrote: a header field, a class table, and the bytes around them.
use styx.Base.{
  ℕ, zero, suc, ◌+◌, ◌*◌, ◌≤◌, ◌<◌, ◌≡◌, ◌⊎◌, refl, ◌∙◌, arith, Bool, true, inl, List, [], ◌∷◌,
  length, get_or, leb, ◌&&◌, u32_mod,
}
use styx.Base.Bytes.{span}
use styx.Base.Memory.{Memory, load, save, load_congr, load-save, save-outside}
use styx.Geometry.{SizeClass}
use styx.Geometry.Tables.{AllU32}
use styx.Page.{Field, write_fields, write_class_table}
use styx.Page.Total.{read_classes, check_class_entries_reserved_zero}
use styx.Page.Rules.{BasesU32}

pub load-save_other :
    (o w v o' w' : ℕ) (m : Memory)
    → (o' + w' ≤ o) ⊎ (o + w ≤ o')
    → load o' w' (save o w v m) ≡ load o' w' m
load-save_other o w v o' w' m h =
    load_congr o' w' (save o w v m) m (λ k p q. save-outside o w v k m (omega arith))

-- The fields follow one another in the bytes from `base` to `top`.
abbrev pub laid : ℕ → ℕ → List Field → Bool
laid base top [] = leb base top
laid base top (f ∷ fs) = leb base f.place && laid (f.place + f.width) top fs

laid-le : (base top : ℕ) (fs : List Field) → laid base top fs ≡ true → base ≤ top
laid-le base top [] h = ground arith
laid-le base top (f ∷ fs) h = ground (arith, laid-le (f.place + f.width) top fs)

pub write_fields-outside :
    (base top : ℕ) (fs : List Field) (m : Memory) (k : ℕ)
    → laid base top fs ≡ true
    → (k < base) ⊎ (top ≤ k)
    → write_fields fs m k ≡ m k
unfolding write_fields
write_fields-outside base top [] m k h out = refl
write_fields-outside base top (f ∷ fs) m k h out =
    let start : base ≤ f.place = ground arith in
    let rest : laid (f.place + f.width) top fs ≡ true = ground arith in
    let bound = laid-le (f.place + f.width) top fs rest in
    write_fields-outside (f.place + f.width) top fs (save f.place f.width f.value m) k rest
      (omega arith)
    ∙ save-outside f.place f.width f.value k m (omega arith)

abbrev no_field : Field
no_field = record { place = 0; width = 0; value = 0 }

abbrev pub field_at : List Field → ℕ → Field
field_at fs i = get_or fs i no_field

pub load-write_fields :
    (base top : ℕ) (fs : List Field) (m : Memory) (i : ℕ)
    → laid base top fs ≡ true
    → i < length fs
    → (field_at fs i).value < span (field_at fs i).width
    → load (field_at fs i).place (field_at fs i).width (write_fields fs m) ≡ (field_at fs i).value
unfolding write_fields
load-write_fields base top [] m i h lt small = absurd (omega arith)
load-write_fields base top (f ∷ fs) m zero h lt small =
    let rest : laid (f.place + f.width) top fs ≡ true = ground arith in
    let stored : Memory = save f.place f.width f.value m in
    load_congr f.place f.width (write_fields fs stored) stored
      (λ k p q. write_fields-outside (f.place + f.width) top fs stored k rest (inl q))
    ∙ load-save f.place f.width f.value m small
load-write_fields base top (f ∷ fs) m (suc i) h lt small =
    load-write_fields (f.place + f.width) top fs (save f.place f.width f.value m) i (ground arith)
      (omega arith) small

pub write_class_table-outside :
    (off : ℕ) (cs : List SizeClass) (m : Memory) (k : ℕ)
    → (k < off) ⊎ (off + length cs * 16 ≤ k)
    → write_class_table off cs m k ≡ m k
unfolding write_class_table
write_class_table-outside off [] m k out = refl
write_class_table-outside off (c ∷ cs) m k out = rw (
  write_class_table-outside (off + 16) cs _ k (omega arith),
  save-outside (off + 12) 4 0 k _ (omega arith),
  save-outside (off + 8) 4 c.class_base_offset k _ (omega arith),
  save-outside (off + 4) 4 c.slab_count k _ (omega arith),
  save-outside (off + 0) 4 c.slab_size k m (omega arith),
)

-- One written entry.
module _ (off : ℕ) (c : SizeClass) (m : Memory) where
  abbrev entry : Memory
  entry = save (off + 12) 4 0 (
      save (off + 8) 4 c.class_base_offset
        (save (off + 4) 4 c.slab_count (save (off + 0) 4 c.slab_size m)))

  entry_size : c.slab_size < u32_mod → load (off + 0) 4 entry ≡ c.slab_size
  entry_size small = rw (
    load-save_other (off + 12) 4 0 (off + 0) 4 _ (omega arith),
    load-save_other (off + 8) 4 c.class_base_offset (off + 0) 4 _ (omega arith),
    load-save_other (off + 4) 4 c.slab_count (off + 0) 4 _ (omega arith),
    load-save (off + 0) 4 c.slab_size m small,
  )

  entry_count : c.slab_count < u32_mod → load (off + 4) 4 entry ≡ c.slab_count
  entry_count small = rw (
    load-save_other (off + 12) 4 0 (off + 4) 4 _ (omega arith),
    load-save_other (off + 8) 4 c.class_base_offset (off + 4) 4 _ (omega arith),
    load-save (off + 4) 4 c.slab_count _ small,
  )

  entry_base : c.class_base_offset < u32_mod → load (off + 8) 4 entry ≡ c.class_base_offset
  entry_base small = rw (
    load-save_other (off + 12) 4 0 (off + 8) 4 _ (omega arith),
    load-save (off + 8) 4 c.class_base_offset _ small,
  )

  entry_reserved : load (off + 12) 4 entry ≡ 0
  entry_reserved = load-save (off + 12) 4 0 _ (omega arith)

  -- The later entries leave this one.
  entry_kept :
      (cs : List SizeClass) (d : ℕ)
      → d + 4 ≤ 16
      → load (off + d) 4 (write_class_table (off + 16) cs entry) ≡ load (off + d) 4 entry
  entry_kept cs d le =
      load_congr (off + d) 4 (write_class_table (off + 16) cs entry) entry
        (λ k p q. write_class_table-outside (off + 16) cs entry k (inl (omega arith)))

pub read_classes-write_class_table :
    (off : ℕ) (cs : List SizeClass) (m : Memory)
    → AllU32 cs
    → BasesU32 cs
    → read_classes (write_class_table off cs m) off (length cs) ≡ cs
unfolding read_classes write_class_table
read_classes-write_class_table off [] m u b = refl
read_classes-write_class_table off (c ∷ cs) m u b = rw (
  entry_kept off c m cs 0 (omega arith),
  entry_kept off c m cs 4 (omega arith),
  entry_kept off c m cs 8 (omega arith),
  entry_size off c m u.0,
  entry_count off c m u.1,
  entry_base off c m b.0,
  read_classes-write_class_table (off + 16) cs (entry off c m) u.2 b.1,
)

pub reserved-write_class_table :
    (off : ℕ) (cs : List SizeClass) (m : Memory)
    → check_class_entries_reserved_zero (write_class_table off cs m) off (length cs) ≡ true
unfolding check_class_entries_reserved_zero write_class_table
reserved-write_class_table off [] m = refl
reserved-write_class_table off (c ∷ cs) m = rw (
  entry_kept off c m cs 12 (omega arith),
  entry_reserved off c m,
  reserved-write_class_table (off + 16) cs (entry off c m),
)
