-- ===== src/Virtio/Disk/Restore.antt =====
-- An overlay that is packed from an image is applied to a base: what the base becomes.
use nix_wasm.Prelude.{ℕ, suc, ◌+◌, ◌-◌, ◌*◌, ◌/◌, ◌%◌, ◌^◌, ◌≤◌, ◌<◌, List, [], ◌∷◌, ◌++◌, Bool}
use nix_wasm.Prelude.{false, ◌≡◌, refl, sym, ap, ◌∙◌, arith}
use nix_wasm.Prelude.{if◌then◌else◌, length, get_elem?, All, overwrite, take, drop}
use nix_wasm.Prelude.{length-overwrite, length-take, length-drop, length-append, take-length_append}
use nix_wasm.Prelude.{drop-length_append, ltb_of_le, lt→ltb, All-mono}
use nix_wasm.Prelude.Bytes.{le_bytes}
use nix_wasm.Prelude.Lookup.{
  get_elem?-overwrite, get_elem?-take, get_elem?-drop, get_elem?-ext, get_elem?-past_end,
}
use nix_wasm.Virtio.Disk.{
  sector_size, is_dirty, slice, entries, header, pack_dirty_sectors, done, u32_at, apply_entries,
  apply_dirty_overlay,
}
use nix_wasm.Virtio.Machine.{ok}
use nix_wasm.Virtio.Disk.Marks.{found, scan_ok}
use nix_wasm.Virtio.Disk.Bitmap.{Covers, contains, contains-found, found_below, length-found}

-- A sector that lies in an image of so many bytes, and whose number fits the entry.
abbrev pub InImage : ℕ → ℕ → Type 0
InImage size s = (s * sector_size + sector_size ≤ size) × (s < 2 ^ 32)

-- The base with the listed sectors copied from the image.
paste : List ℕ → List ℕ → List ℕ → List ℕ
paste image base [] = base
paste image base (s ∷ dirty) = paste image (overwrite base (s * sector_size) (slice image s)) dirty

length-slice :
    (image : List ℕ) (s : ℕ) → InImage (length image) s → length (slice image s) ≡ sector_size
unfolding slice
length-slice image s h = length-take sector_size _ (rw length-drop (omega arith))

get_elem?-slice :
    (image : List ℕ) (s i : ℕ)
    → s * sector_size ≤ i
    → i < s * sector_size + sector_size
    → get_elem? (slice image s) (i - s * sector_size) ≡ get_elem? image i
unfolding slice
get_elem?-slice image s i lo hi =
    let j = i - s * sector_size in
    let back : s * sector_size + j ≡ i = omega arith in
    get_elem?-take sector_size j (drop (s * sector_size) image)
    ∙ rw (lt→ltb j sector_size (omega arith))
        (get_elem?-drop (s * sector_size) j image ∙ ap (get_elem? image) back)

length-entries :
    (image dirty : List ℕ)
    → All (InImage (length image)) dirty
    → length (entries image dirty) ≡ length dirty * (4 + sector_size)
unfolding entries
length-entries image [] h = omega arith
length-entries image (s ∷ dirty) h = omega (
  arith,
  length-append (slice image s) (entries image dirty),
  length-slice image s h.0,
  length-entries image dirty h.1,
)

-- One entry in front of others.
module _ (image more : List ℕ) (s : ℕ) (h : InImage (length image) s) where
  abbrev entry : List ℕ
  entry = le_bytes 4 (s % 2 ^ 32) ++ (slice image s ++ more)

  index-entry : u32_at 0 entry ≡ s
  index-entry = omega arith

  bytes-entry : take sector_size (drop 4 entry) ≡ slice image s
  bytes-entry = rw (← length-slice image s h) (take-length_append (slice image s) more)

  rest-entry : drop (4 + sector_size) entry ≡ more
  rest-entry =
      ap (λ (n : ℕ). drop n (slice image s ++ more)) (sym (length-slice image s h))
      ∙ drop-length_append (slice image s) more

apply_entries-suc :
    (count s : ℕ) (image rest bytes more : List ℕ)
    → u32_at 0 rest ≡ s
    → take sector_size (drop 4 rest) ≡ bytes
    → drop (4 + sector_size) rest ≡ more
    → s * sector_size + sector_size ≤ length image
    → apply_entries (suc count) image rest
      ≡ apply_entries count (overwrite image (s * sector_size) bytes) more
unfolding apply_entries
apply_entries-suc count s image rest bytes more index taken left fits =
    rw index (rw taken (rw left (rw (ltb_of_le (length image) _ fits))))

apply_entries-entries :
    (image dirty base : List ℕ)
    → length base ≡ length image
    → All (InImage (length image)) dirty
    → apply_entries (length dirty) base (entries image dirty) ≡ (paste image base dirty, done)
apply_entries-entries image [] base e h = unfold apply_entries paste in refl
apply_entries-entries image (s ∷ dirty) base e h =
    let more = entries image dirty in
    let next = overwrite base (s * sector_size) (slice image s) in
    apply_entries-suc (length dirty) s base (entries image (s ∷ dirty)) (slice image s) more
      (unfold entries in index-entry image more s h.0)
      (unfold entries in bytes-entry image more s h.0)
      (unfold entries in rest-entry image more s h.0) (omega (arith, e, h.0.0))
    ∙ apply_entries-entries image dirty next (length-overwrite base _ _ ∙ e) h.1
    ∙ unfold paste in refl

-- Where the base comes from after the sectors are pasted.
get_elem?-paste :
    (image dirty base : List ℕ) (i : ℕ)
    → length base ≡ length image
    → All (InImage (length image)) dirty
    → get_elem? (paste image base dirty) i
      ≡ (if contains dirty (i / sector_size) then get_elem? image i else get_elem? base i)
unfolding paste contains
get_elem?-paste image [] base i e h = refl
get_elem?-paste image (s ∷ dirty) base i e h =
    let next = overwrite base (s * sector_size) (slice image s) in
    let len = length-slice image s h.0 in
    ground (
      arith,
      len,
      get_elem?-paste image dirty next i (length-overwrite base _ _ ∙ e) h.1,
      get_elem?-overwrite base (s * sector_size) (slice image s) i (omega (arith, len, e, h.0.0)),
      get_elem?-slice image s i,
    )

-- A bitmap for the sectors of an image whose size is a multiple of the sector's, as
-- `createStateDiskBacking` makes it, and whose
-- sector numbers `>>` does not turn negative.
pub record IsBacked (image bitmap : List ℕ) : Type 0 where
  pub whole : length image % sector_size ≡ 0
  pub few : length image / sector_size < 2 ^ 31
  pub covers : Covers (length image / sector_size) bitmap

-- Two images of one size that differ at most in sectors that are dirty.
pub record SameWhereClean (bitmap image base : List ℕ) : Type 0 where
  pub same_size : length base ≡ length image
  pub same_bytes :
      (i : ℕ) → is_dirty bitmap (i / sector_size) ≡ false → get_elem? base i ≡ get_elem? image i

-- A header is accepted, and its count is the number of entries that are applied.
apply-header :
    (n : ℕ) (base body : List ℕ)
    → n < 2 ^ 32
    → length body ≡ n * (4 + sector_size)
    → apply_dirty_overlay base (header n ++ body) ≡ apply_entries n base body
unfolding apply_dirty_overlay
apply-header n base body h e =
    let count : u32_at 12 (header n ++ body) ≡ n = omega arith in
    let size : 16 + n * (4 + sector_size) ≤ length (header n ++ body) = omega (arith, e) in
    let whole = length (header n ++ body) in
    rw count (
      rw (ltb_of_le whole (16 + n * (4 + sector_size)) size)
        (rw (ltb_of_le whole 16 (omega arith))))

-- A scanned sector lies in the image.
found-InImage :
    (image bitmap : List ℕ) (clear : Bool)
    → IsBacked image bitmap
    → All (InImage (length image)) (found clear (length image / sector_size) 0 bitmap).0
found-InImage image bitmap clear b =
    All-mono (λ s h. (omega (arith, h), omega (arith, h, b.few))) _
      (found_below (length image / sector_size) clear (length image / sector_size) 0 bitmap
        (omega arith))

-- For an image of whole sectors, fewer than 2 ^ 31, and a bitmap, shared or not, that covers them:
-- packing does not throw, and the packed overlay, applied to a base of the same size that differs from the image in dirty sectors only,
-- makes the base the image, and does not throw.
pub apply-pack_dirty_sectors :
    (shared : Bool) (image bitmap base : List ℕ) (clear : Bool)
    → IsBacked image bitmap
    → SameWhereClean bitmap image base
    → (overlay : List ℕ) × ((pack_dirty_sectors shared image clear bitmap).0 ≡ ok overlay)
      × (apply_dirty_overlay base overlay ≡ (image, done))
unfolding pack_dirty_sectors
apply-pack_dirty_sectors shared image bitmap base clear b same = (
  header (length dirty) ++ entries image dirty,
  rw (scan_ok shared clear sectors 0 bitmap (omega (arith, b.covers.wide))) refl,
  apply-header (length dirty) base (entries image dirty) few (length-entries image dirty inside)
      ∙ apply_entries-entries image dirty base same.same_size inside
      ∙ ap (λ t. (t, done)) (get_elem?-ext _ _ pointwise),
)
  where
    sectors : ℕ
    sectors = length image / sector_size

    dirty : List ℕ
    dirty = (found clear sectors 0 bitmap).0

    inside : All (InImage (length image)) dirty
    inside = found-InImage image bitmap clear b

    few : length dirty < 2 ^ 32
    few = omega (arith, b.few, length-found clear sectors 0 bitmap)

    pointwise : (i : ℕ) → get_elem? (paste image base dirty) i ≡ get_elem? image i
    pointwise i =
        get_elem?-paste image dirty base i same.same_size inside
        ∙ rw (contains-found clear sectors 0 b.covers (i / sector_size) (omega arith)) (
            ground (
              arith,
              b.whole,
              same.same_bytes i,
              get_elem?-past_end image i,
              get_elem?-past_end base i,
            ))
