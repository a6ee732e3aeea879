-- ===== src/WaylandTokio/Recv/Cursor/Part.antt =====
-- What stands in the memory of a handle from the place of a cursor on.
use ecs_compositor.Prelude.{
  ℕ, ◌+◌, ◌-◌, ◌≤◌, ◌≡◌, refl, sym, ap, ap₂, ◌∙◌, List, [], ◌++◌, append_assoc, true, none, some,
  arith, length, take, drop, length-append, drop-drop, take-append, drop-append, if◌then◌else◌,
}
use ecs_compositor.Core.Value.{RawFd, split_at}
use ecs_compositor.Core.Value.Word.{split_at-append}
use ecs_compositor.WaylandTokio.Recv.{BufSpan}
use ecs_compositor.WaylandTokio.Recv.Cursor.{
  Offset, Len, hdr_len, data_slice, ctrl_slice, in_span, both, peek_buf,
}

-- The part of a memory from an index up to an end: the items, and that the memory has them there.
pub record Part {A : Type 0} (memory : List A) (start end index : ℕ) (items : List A) : Type 0 where
  pub from : start ≤ index
  pub up_to : index + length items ≡ end
  pub rest : List A
  pub there : drop index memory ≡ items ++ rest

module _ {A : Type 0} {memory : List A} {start end index : ℕ} where
  pub Part-behind :
      (items more : List A)
      → Part memory start end index (items ++ more)
      → Part memory start end (index + length items) more
  Part-behind items more p = record {
    from = omega (arith, p.from);
    up_to = omega (arith, p.up_to, length-append items more);
    rest = p.rest;
    there =
        sym (drop-drop index (length items) memory)
        ∙ ap (drop (length items)) (p.there ∙ append_assoc items more p.rest)
        ∙ drop-append (length items) items (more ++ p.rest) refl;
  }

  Part-slice :
      (items : List A)
      → Part memory start end index items
      → take (end - start - (index - start)) (drop index memory) ≡ items
  Part-slice items p =
      ap₂ take {x = end - start - (index - start)} {y = length items}
        (omega (arith, p.from, p.up_to)) p.there
      ∙ take-append (length items) items p.rest refl

module _ (memory : List ℕ) (rights : List RawFd) (span : BufSpan) where
  abbrev pub DataAt : ℕ → List ℕ → Type 0
  DataAt index items = Part memory span.da (span.da + span.da_len) index items

  abbrev pub RightsAt : ℕ → List RawFd → Type 0
  RightsAt index items = Part rights span.ct (span.ct + span.ct_len) index items

  data_slice-at :
      (index : ℕ) (items : List ℕ)
      → DataAt index items
      → data_slice memory rights span index ≡ items
  data_slice-at index items p =
      ap (λ n. take (n - (index - span.da)) (drop index memory)) {x = span.da_len}
        {y = span.da + span.da_len - span.da} (omega arith)
      ∙ Part-slice items p

  ctrl_slice-at :
      (index : ℕ) (items : List RawFd)
      → RightsAt index items
      → ctrl_slice memory rights span index ≡ items
  ctrl_slice-at index items p =
      ap (λ n. take (n - (index - span.ct)) (drop index rights)) {x = span.ct_len}
        {y = span.ct + span.ct_len - span.ct} (omega arith)
      ∙ Part-slice items p

  in_span-front :
      (offset : Offset) (len : Len) (xs : List ℕ) (ys : List RawFd)
      → DataAt offset.da xs
      → RightsAt offset.ct ys
      → len.da ≤ length xs
      → len.ct ≤ length ys
      → in_span memory rights span offset len ≡ true
  in_span-front offset len xs ys p q n k = ground (arith, p.from, p.up_to, q.from, q.up_to)

  -- What is in front of a cursor is there to be taken.
  pub peek_buf-front :
      (offset : Offset) (len : Len) (da more : List ℕ) (ct more_fds : List RawFd)
      → DataAt offset.da (da ++ more)
      → RightsAt offset.ct (ct ++ more_fds)
      → length da ≡ len.da
      → length ct ≡ len.ct
      → peek_buf memory rights span offset len ≡ some (record { da = da; ct = ct })
  unfolding peek_buf
  peek_buf-front offset len da more ct more_fds p q n k =
      ap
        (λ t.
          if t
          then both memory rights span (split_at (data_slice memory rights span offset.da) len.da)
              (split_at (ctrl_slice memory rights span offset.ct) len.ct)
          else none)
        (in_span-front offset len (da ++ more) (ct ++ more_fds) p q
          (omega (arith, length-append da more)) (omega (arith, length-append ct more_fds)))
      ∙ ap₂ (both memory rights span)
          (ap (λ l. split_at l len.da) (data_slice-at offset.da (da ++ more) p)
            ∙ split_at-append da more len.da n)
          (ap (λ l. split_at l len.ct) (ctrl_slice-at offset.ct (ct ++ more_fds) q)
            ∙ split_at-append ct more_fds len.ct k)

  pub peek_buf-end :
      (offset : Offset) → DataAt offset.da [] → peek_buf memory rights span offset hdr_len ≡ none
  unfolding peek_buf
  peek_buf-end offset p = ground (arith, p.from, p.up_to)
