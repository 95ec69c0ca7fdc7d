-- ===== src/Page/RoundTrip.antt =====
-- A region that CreateRegion writes is accepted by parseLayoutPhase2, which reads the layout back.
use styx.Base.{
  ℕ, ◌+◌, ◌*◌, ◌==◌, not, ltb, ◌≤◌, ◌<◌, ◌≡◌, sym, ap, ◌∙◌, arith, true, some, Bool, List, [], ◌∷◌,
  length, u64_mod, ==_iff,
}
use styx.Base.Maybe.{>>=-eq-some, some_inj, guard, guard-eq-some}
use styx.Base.Memory.{Memory}
use styx.Geometry.{
  SizeClass, Layout, DerivedGeometry, page_size, validate_ring_capacity, validate_lifecycle_reserve,
  validate_slab_bounds, build_arena_geometry, derive_spans, with_bases,
}
use styx.Geometry.Tables.{AllU32}
use styx.Geometry.Build.{build_inversion}
use styx.Page.{layout_magic, write_layout_page, create_layout, derive_layout, layout_page_size}
use styx.Base.Outcome.{returned}
use styx.Page.Parse
use styx.Page.Whole.{Total-returned}
use styx.Page.Total.{parse_layout_phase2}
use styx.Page.Accepts.{parse_intro, derive_spans-fits, ring_capacity_bound}
use styx.Page.Rules.{BasesU32, accepted-build}
use styx.Page.Made.{Side, made, Checked, made-Accepted}

nonempty_table : (cs : List SizeClass) → validate_slab_bounds cs ≡ true → 0 < length cs
unfolding validate_slab_bounds
nonempty_table [] e = absurd (cc e)
nonempty_table (c ∷ cs) e = omega arith

with_bases-U32 :
    (cs : List SizeClass) (bs : List ℕ)
    → AllU32 cs
    → AllU32 (with_bases cs bs) × BasesU32 (with_bases cs bs)
with_bases-U32 [] bs u = (tt, tt)
with_bases-U32 (c ∷ cs) [] u = (tt, tt)
with_bases-U32 (c ∷ cs) (b ∷ bs) u =
    let rest = with_bases-U32 cs bs u.2 in ((u.0, u.1, rest.0), (omega arith, rest.1))

build_arena_geometry-Side :
    (cs ds : List SizeClass) (bytes : ℕ)
    → AllU32 cs
    → build_arena_geometry cs ≡ some (ds, bytes)
    → Side ds bytes
build_arena_geometry-Side cs ds bytes u e =
    let (valid, checked, bounded, long) = accepted-build cs ds bytes u e in
    let (total, based, summed, inside) = checked in
    let (computed, found, accepted, rounded, small, same) = build_inversion cs ds bytes e in
    let typed = with_bases-U32 cs computed.0 u in
    record {
      nonempty = nonempty_table ds valid;
      valid = valid;
      total = total;
      based = based;
      summed = summed;
      inside = inside;
      bounded = bounded;
      sizes = rw (← same) typed.0;
      bases = rw (← same) typed.1;
    }

-- The types of what the caller of CreateRegion chooses.
pub record IsInput (input : Layout) : Type 0 where
  pub generation_word : input.generation < u64_mod
  pub hp_words : AllU32 input.arena_hp.classes
  pub ph_words : AllU32 input.arena_ph.classes

-- The layout that DeriveLayout returns, from its intermediate results.
abbrev laid_out : Layout → List SizeClass × ℕ → List SizeClass × ℕ → DerivedGeometry → Layout
laid_out input hp ph spans = record input {
  region_size = spans.region_size;
  sync_page_offset = spans.sync_page_offset;
  ring_hp = spans.ring_hp_offset;
  ring_ph = spans.ring_ph_offset;
  arena_hp = record {
    offset = spans.arena_hp_offset;
    bytes = hp.1;
    class_table_offset = 256;
    classes = hp.0;
  };
  arena_ph = record {
    offset = spans.arena_ph_offset;
    bytes = ph.1;
    class_table_offset = 256 + length hp.0 * 16;
    classes = ph.0;
  };
}

abbrev room_left : List SizeClass × ℕ → List SizeClass × ℕ → Bool
room_left hp ph = not (ltb layout_page_size (256 + length hp.0 * 16 + length ph.0 * 16))

room_left-le :
    (hp ph : List SizeClass × ℕ)
    → room_left hp ph ≡ true
    → 256 + length hp.0 * 16 + length ph.0 * 16 ≤ page_size
room_left-le hp ph e = ground arith

-- What a successful derivation returns: the made layout, but for the three fields copied through.
record Derivation (input d : Layout) : Type 0 where
  pub hp : List SizeClass
  pub hp_bytes : ℕ
  pub ph : List SizeClass
  pub ph_bytes : ℕ
  pub checked :
      Checked input.generation input.ring_capacity input.lifecycle_reserve hp hp_bytes ph ph_bytes
  pub same :
      record (made input.generation input.ring_capacity input.lifecycle_reserve hp hp_bytes ph
        ph_bytes) {
          magic = input.magic;
          layout_version = input.layout_version;
          header_flags = input.header_flags;
        }
      ≡ d

Derivation-made :
    (input d : Layout) (hp ph : List SizeClass × ℕ) (spans : DerivedGeometry)
    → IsInput input
    → validate_ring_capacity input.ring_capacity ≡ true
    → validate_lifecycle_reserve input.lifecycle_reserve input.ring_capacity ≡ true
    → build_arena_geometry input.arena_hp.classes ≡ some hp
    → build_arena_geometry input.arena_ph.classes ≡ some ph
    → derive_spans input.ring_capacity hp.1 ph.1 ≡ some spans
    → 256 + length hp.0 * 16 + length ph.0 * 16 ≤ page_size
    → laid_out input hp ph spans ≡ d
    → Derivation input d
Derivation-made input d hp ph spans t capacity reserve build_hp build_ph spanned room e =
    let few = ring_capacity_bound input.ring_capacity capacity in
    let side_hp = build_arena_geometry-Side input.arena_hp.classes hp.0 hp.1 t.hp_words build_hp in
    let side_ph = build_arena_geometry-Side input.arena_ph.classes ph.0 ph.1 t.ph_words build_ph in
    let (exact, small) =
      derive_spans-fits input.ring_capacity hp.1 ph.1 spans few side_hp.bounded side_ph.bounded
        spanned in
    record {
      hp = hp.0;
      hp_bytes = hp.1;
      ph = ph.0;
      ph_bytes = ph.1;
      checked = record {
        word = t.generation_word;
        capacity = capacity;
        few = few;
        reserve = reserve;
        hp_side = side_hp;
        ph_side = side_ph;
        spans = spanned ∙ ap some exact;
        small = small;
        room = room;
      };
      same = ap (laid_out input hp ph) (sym exact) ∙ e;
    }

derive_inversion :
    (input d : Layout) → IsInput input → derive_layout input ≡ some d → Derivation input d
unfolding derive_layout
derive_inversion input d t e =
    let (u, capacity, e1) = >>=-eq-some (guard (validate_ring_capacity input.ring_capacity)) _ e in
    let (v, reserve, e2) =
      >>=-eq-some (guard (validate_lifecycle_reserve input.lifecycle_reserve input.ring_capacity)) _
        e1 in
    let (hp, build_hp, e3) = >>=-eq-some (build_arena_geometry input.arena_hp.classes) _ e2 in
    let (ph, build_ph, e4) = >>=-eq-some (build_arena_geometry input.arena_ph.classes) _ e3 in
    let (spans, spanned, e5) = >>=-eq-some (derive_spans input.ring_capacity hp.1 ph.1) _ e4 in
    let (w, room, e6) = >>=-eq-some (guard (room_left hp ph)) _ e5 in
    Derivation-made input d hp ph spans t (guard-eq-some _ capacity) (guard-eq-some _ reserve)
      build_hp build_ph spanned (room_left-le hp ph (guard-eq-some _ room)) (some_inj e6)

create_inversion :
    (input l : Layout)
    → IsInput input
    → create_layout input ≡ some l
    → (derived : Layout) × (d : Derivation input derived) × (made input.generation
          input.ring_capacity input.lifecycle_reserve d.hp d.hp_bytes d.ph d.ph_bytes
        ≡ l)
unfolding create_layout
create_inversion input l t e =
    let (u, born, e1) = >>=-eq-some (guard (not (input.generation == 0))) _ e in
    let (v, plain, e2) = >>=-eq-some (guard (input.header_flags == 0)) _ e1 in
    let (derived, how, e3) = >>=-eq-some (derive_layout input) _ e2 in
    let no_flags = (==_iff input.header_flags 0).0 (guard-eq-some _ plain) in
    let d = derive_inversion input derived t how in
    let plain_made =
      made input.generation input.ring_capacity input.lifecycle_reserve d.hp d.hp_bytes d.ph
        d.ph_bytes in
    (
      derived,
      d,
      ap (λ (f : ℕ). record plain_made { header_flags = f }) (sym no_flags)
          ∙ ap
              (λ (x : Layout). record x {
                magic = layout_magic;
                layout_version = 1;
                generation = input.generation;
              })
              d.same
          ∙ some_inj e3,
    )

-- The layout that `CreateRegion` makes, for an input whose fields are in the range of their Go types,
-- written into a zeroed mapping of the region's size, is accepted by `parseLayoutPhase2` with that size
-- declared, which returns the very layout that was written.
pub parse_layout_phase2-write_layout_page :
    (input l : Layout) (m : Memory)
    → IsInput input
    → create_layout input ≡ some l
    → ((i : ℕ) → i < l.region_size → m i ≡ 0)
    → Parse.parse_layout_phase2 (write_layout_page l m) l.region_size l.region_size ≡ returned l
parse_layout_phase2-write_layout_page input l m t e zeroed =
    let (derived, d, same) = create_inversion input l t e in
    let goal : (x : Layout)
        → made input.generation input.ring_capacity input.lifecycle_reserve d.hp d.hp_bytes d.ph
            d.ph_bytes
          ≡ x
        → ((i : ℕ) → i < x.region_size → m i ≡ 0)
        → parse_layout_phase2 (write_layout_page x m) x.region_size x.region_size ≡ some x =
      λ x eq z. rw (← eq) (
        parse_intro _ _ _ _ (
          made-Accepted input.generation input.ring_capacity input.lifecycle_reserve d.hp d.hp_bytes
            d.ph d.ph_bytes d.checked m (rw (← eq) at z))) in
    Total-returned (write_layout_page l m) l.region_size l.region_size (goal l same zeroed)
