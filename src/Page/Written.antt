-- ===== src/Page/Written.antt =====
-- The page that writeLayoutPage leaves, for a layout whose class tables lie in the page, apart.
use styx.Base.{ℕ, ◌+◌, ◌*◌, ◌≤◌, ◌<◌, ◌≡◌, refl, ◌∙◌, arith, true, inl, inr, length}
use styx.Base.Bytes.{span}
use styx.Base.Memory.{
  Memory, clear, load, load_congr, copy_in, copy_out, copy_out_congr, copy_out-copy_in,
  copy_in-outside, is_zero, is_zero-zeroed,
}
use styx.Geometry.{Layout, page_size}
use styx.Geometry.Tables.{AllU32}
use styx.Page.{
  size_class_entry_size, header_fields, write_fields, write_class_table, write_layout_page,
}
use styx.Page.Total.{read_classes, check_class_entries_reserved_zero}
use styx.Page.Bounded.{read_classes_congr, reserved_congr}
use styx.Page.Rules.{BasesU32}
use styx.Page.Decode.{
  field_at, load-write_fields, write_fields-outside, write_class_table-outside,
  read_classes-write_class_table, reserved-write_class_table,
}

-- Both class tables lie after the header, the second after the first.
abbrev pub TablesApart : Layout → Type 0
TablesApart l =
    (256 ≤ l.arena_hp.class_table_offset)
    × (l.arena_hp.class_table_offset + length l.arena_hp.classes * size_class_entry_size
        ≤ l.arena_ph.class_table_offset)
    × (l.arena_ph.class_table_offset + length l.arena_ph.classes * size_class_entry_size
        ≤ page_size)

module _ (l : Layout) (m : Memory) (apart : TablesApart l) where
  abbrev header : Memory
  header = write_fields (header_fields l) (copy_in 0 l.magic m)

  abbrev with_hp : Memory
  with_hp =
      write_class_table l.arena_hp.class_table_offset l.arena_hp.classes (clear 140 116 header)

  low : (k : ℕ) → k < 256 → write_layout_page l m k ≡ clear 140 116 header k
  unfolding write_layout_page
  low k lt =
      write_class_table-outside l.arena_ph.class_table_offset l.arena_ph.classes with_hp k
        (inl (omega arith))
      ∙ write_class_table-outside l.arena_hp.class_table_offset l.arena_hp.classes
          (clear 140 116 header) k (inl (omega arith))

  low_header : (k : ℕ) → k < 140 → write_layout_page l m k ≡ header k
  low_header k lt = low k (omega arith) ∙ ground arith

  -- The field at position `i` of the header reads as it was written.
  pub load-header :
      (i : ℕ)
      → i < 21
      → (field_at (header_fields l) i).place + (field_at (header_fields l) i).width ≤ 140
      → (field_at (header_fields l) i).value < span (field_at (header_fields l) i).width
      → load
          (field_at (header_fields l) i).place
          (field_at (header_fields l) i).width
          (write_layout_page l m)
        ≡ (field_at (header_fields l) i).value
  load-header i lt inside small =
      load_congr (field_at (header_fields l) i).place (field_at (header_fields l) i).width
        (write_layout_page l m) header (λ k p q. low_header k (omega arith))
      ∙ load-write_fields 8 140 (header_fields l) (copy_in 0 l.magic m) i refl lt small

  pub copy_out-page : length l.magic ≡ 8 → copy_out 0 8 (write_layout_page l m) ≡ l.magic
  copy_out-page eight =
      copy_out_congr 0 8 (write_layout_page l m) header (λ k p q. low_header k (omega arith))
      ∙ copy_out_congr 0 8 header (copy_in 0 l.magic m) (λ k p q.
        write_fields-outside 8 140 (header_fields l) (copy_in 0 l.magic m) k refl (inl q))
      ∙ rw (← eight) (copy_out-copy_in 0 l.magic m)

  pub reserved_hdr-page : is_zero 140 116 (write_layout_page l m) ≡ true
  reserved_hdr-page =
      is_zero-zeroed 140 116 (write_layout_page l m) (λ k p q. low k (omega arith) ∙ ground arith)

  -- Past the layout page nothing is written.
  pub high : length l.magic ≡ 8 → (k : ℕ) → page_size ≤ k → write_layout_page l m k ≡ m k
  unfolding write_layout_page
  high eight k le =
      write_class_table-outside l.arena_ph.class_table_offset l.arena_ph.classes with_hp k
        (inr (omega arith))
      ∙ write_class_table-outside l.arena_hp.class_table_offset l.arena_hp.classes
          (clear 140 116 header) k (inr (omega arith))
      ∙ ground (
        arith,
        write_fields-outside 8 140 (header_fields l) (copy_in 0 l.magic m) k refl
            (inr (omega arith)),
        copy_in-outside 0 k l.magic m (inr (omega arith)),
      )

  pub hp_classes :
      AllU32 l.arena_hp.classes
      → BasesU32 l.arena_hp.classes
      → read_classes
          (write_layout_page l m)
          l.arena_hp.class_table_offset
          (length l.arena_hp.classes)
        ≡ l.arena_hp.classes
  unfolding write_layout_page
  hp_classes u b =
      read_classes_congr (write_layout_page l m) with_hp l.arena_hp.class_table_offset
        (length l.arena_hp.classes)
        (λ k p q.
          write_class_table-outside l.arena_ph.class_table_offset l.arena_ph.classes with_hp k
            (inl (omega arith)))
      ∙ read_classes-write_class_table l.arena_hp.class_table_offset l.arena_hp.classes
          (clear 140 116 header) u b

  pub ph_classes :
      AllU32 l.arena_ph.classes
      → BasesU32 l.arena_ph.classes
      → read_classes
          (write_layout_page l m)
          l.arena_ph.class_table_offset
          (length l.arena_ph.classes)
        ≡ l.arena_ph.classes
  unfolding write_layout_page
  ph_classes u b =
      read_classes-write_class_table l.arena_ph.class_table_offset l.arena_ph.classes with_hp u b

  pub hp_reserved :
      check_class_entries_reserved_zero
        (write_layout_page l m)
        l.arena_hp.class_table_offset
        (length l.arena_hp.classes)
      ≡ true
  unfolding write_layout_page
  hp_reserved =
      reserved_congr (write_layout_page l m) with_hp l.arena_hp.class_table_offset
        (length l.arena_hp.classes)
        (λ k p q.
          write_class_table-outside l.arena_ph.class_table_offset l.arena_ph.classes with_hp k
            (inl (omega arith)))
      ∙ reserved-write_class_table l.arena_hp.class_table_offset l.arena_hp.classes
          (clear 140 116 header)

  pub ph_reserved :
      check_class_entries_reserved_zero
        (write_layout_page l m)
        l.arena_ph.class_table_offset
        (length l.arena_ph.classes)
      ≡ true
  unfolding write_layout_page
  ph_reserved = reserved-write_class_table l.arena_ph.class_table_offset l.arena_ph.classes with_hp
