-- ===== src/Retire.antt =====
-- Pages of the Windows XPU build (src/model-vbar.c): the retirement tokens that say which queues have
-- read a page, and the holds of consumers that outlive a pin.
pub mod Tokens
pub mod Holds
use comfy_aimdo_xpu.Base.{
  ℕ, zero, suc, ◌+◌, ◌-◌, ◌/◌, ◌%◌, ◌^◌, Bool, true, false, not, ◌&&◌, ◌||◌, Option, none, some,
  List, [], ◌∷◌, ◌++◌, length, ltb, leb, ◌==◌, if◌then◌else◌, update,
}
use comfy_aimdo_xpu.Devctx.{add64, incr32}
use comfy_aimdo_xpu.Vbar.Pages.{uint64_max, vbar_get_page_nr, vbar_get_page_nr_up}

-- AIMDO_XPU_RETIRE_MAX_QUEUES of src/gpu_dispatch.h; the queue tag is the low 7 bits of a token, the
-- generation the next 33, and the incarnation the rest.
abbrev pub max_queues : ℕ
max_queues = 64

abbrev pub queue_tag : ℕ → ℕ
queue_tag token = token % 2 ^ 7

abbrev pub generation_of : ℕ → ℕ
generation_of stamp = stamp % 2 ^ 33

abbrev pub incarnation_of : ℕ → ℕ
incarnation_of stamp = stamp / 2 ^ 33

abbrev pub stamp_of : ℕ → ℕ
stamp_of token = token / 2 ^ 7

-- VBAR_MAPPING_MAPPED
abbrev pub mapping_mapped : ℕ
mapping_mapped = 1

-- `ResidentPage` of the Windows XPU build; `retire_tokens` has the first `retire_token_count`
-- entries of the array.
pub record XpuPage : Type 0 where
  pub handle : ℕ
  pub pin_count : ℕ
  pub serial : ℕ
  pub retire_tokens : List ℕ
  pub eviction_generation : ℕ
  pub external_consumer_holds : ℕ
  pub capture_holds : ℕ
  pub retire_unknown : Bool
  pub mapped : ℕ
  pub evicting : Bool

abbrev pub consumer_held : XpuPage → Bool
consumer_held rp = not (rp.external_consumer_holds == 0) || not (rp.capture_holds == 0)

abbrev pub xpu_page_is_mapped : XpuPage → Bool
xpu_page_is_mapped rp = not (rp.handle == 0) && rp.mapped == mapping_mapped

unfoldable pub vbar_page_cancel_eviction : XpuPage → XpuPage
vbar_page_cancel_eviction rp =
    if rp.evicting
    then record rp { evicting = false; eviction_generation = add64 rp.eviction_generation 1 }
    else rp

-- The search of `vbar_retire_record`: the tokens with the one of the same queue raised, if any.
unfoldable pub raise_token : List ℕ → (token : ℕ) → Option (List ℕ)
raise_token [] token = none
raise_token (existing ∷ rest) token =
    let raised = raise_token rest token in
    if queue_tag existing == queue_tag token
    then some ((if ltb existing token then token else existing) ∷ rest)
    else elim raised [ none ↦ none | some tokens ↦ some (existing ∷ tokens) ]

unfoldable pub vbar_retire_record : XpuPage → (token : ℕ) → XpuPage
unfolding raise_token
vbar_retire_record rp token =
    if token == 0
    then record rp { retire_unknown = true }
    else elim (raise_token rp.retire_tokens token) [
      | some tokens ↦ record rp { retire_tokens = tokens }
      | none ↦
          if leb max_queues (length rp.retire_tokens)
          then record rp { retire_unknown = true }
          else record rp { retire_tokens = rp.retire_tokens ++ (token ∷ []) }
    ]

-- One round of `vbar_retire_complete`, where `completed` has `count` stamps.
unfoldable pub token_complete : (completed : ℕ → ℕ) → (count token : ℕ) → Bool
token_complete completed count token =
    let stamp = stamp_of token in
    let reached = completed (queue_tag token - 1) in
    if queue_tag token == 0
    then false
    else if leb count (queue_tag token - 1)
    then false
    else incarnation_of reached == incarnation_of stamp
      && leb (generation_of stamp) (generation_of reached)

unfoldable pub all_complete : (completed : ℕ → ℕ) → (count : ℕ) → List ℕ → Bool
unfolding token_complete
all_complete completed count [] = true
all_complete completed count (token ∷ rest) =
    token_complete completed count token && all_complete completed count rest

unfoldable pub vbar_retire_complete : XpuPage → (completed : ℕ → ℕ) → (count : ℕ) → Bool
unfolding all_complete
vbar_retire_complete rp completed count =
    if rp.retire_unknown || consumer_held rp
    then false
    else all_complete completed count rp.retire_tokens

-- `ModelVBAR` of the Windows XPU build
pub record XpuVbar : Type 0 where
  pub vbar : ℕ
  pub nr_pages : ℕ
  pub watermark : ℕ
  pub watermark_limit : ℕ
  pub device : ℕ
  pub resident_count : ℕ
  pub pageout_size : ℕ
  pub pageout_callback : Option ℕ
  pub identity : ℕ
  pub copy_holds : ℕ
  pub closing : Bool
  pub residency_map : ℕ → XpuPage

-- `*vbar_consumer_hold_counter(rp, kind)`, where the kind is known: 1 is external, 2 is capture.
abbrev pub hold_counter : XpuPage → (kind : ℕ) → Option ℕ
hold_counter rp kind =
    if kind == 1
    then some rp.external_consumer_holds
    else if kind == 2
    then some rp.capture_holds
    else none

abbrev pub set_hold : XpuPage → (kind holds : ℕ) → XpuPage
set_hold rp kind holds =
    if kind == 1
    then record rp { external_consumer_holds = holds }
    else if kind == 2
    then record rp { capture_holds = holds }
    else rp

-- The tests of the first loops of `vbar_consumer_acquire` and `vbar_consumer_release` on a page.
unfoldable pub can_hold : (kind : ℕ) → XpuPage → Bool
can_hold kind rp = elim (hold_counter rp kind) [
  | none ↦ false
  | some holds ↦ xpu_page_is_mapped rp && not (holds == 2 ^ 32 - 1)
]

unfoldable pub can_release : (kind : ℕ) → XpuPage → Bool
can_release kind rp = elim (hold_counter rp kind) [
  | none ↦ false
  | some holds ↦ xpu_page_is_mapped rp && not (holds == 0)
]

-- What their second loops do to a page.
unfoldable pub hold_page : (kind : ℕ) → XpuPage → XpuPage
unfolding vbar_page_cancel_eviction
hold_page kind rp =
    let rp1 = vbar_page_cancel_eviction rp in
    elim (hold_counter rp1 kind) [ none ↦ rp1 | some holds ↦ set_hold rp1 kind (incr32 holds) ]

-- `known` and `token` are what the queue registry says of the stream, and `async` is
-- `vbar_async_reclaim_enabled()`.
unfoldable pub release_hold : (known async : Bool) (token kind : ℕ) → XpuPage → XpuPage
unfolding vbar_page_cancel_eviction vbar_retire_record
release_hold known async token kind rp =
    let rp1 = vbar_page_cancel_eviction rp in
    let rp2 =
      if not known
      then record rp1 { retire_unknown = true }
      else if async
      then vbar_retire_record rp1 token
      else rp1 in
    elim (hold_counter rp2 kind) [ none ↦ rp2 | some holds ↦ set_hold rp2 kind (holds - 1) ]

-- The loops: a test of `count` pages from `page_nr` on, and a change of each.
unfoldable pub all_pages : (XpuPage → Bool) → (count : ℕ) → XpuVbar → (page_nr : ℕ) → Bool
all_pages test zero mv page_nr = true
all_pages test (suc count) mv page_nr =
    test (mv.residency_map page_nr) && all_pages test count mv (page_nr + 1)

unfoldable pub each_page : (XpuPage → XpuPage) → (count : ℕ) → XpuVbar → (page_nr : ℕ) → XpuVbar
each_page change zero mv page_nr = mv
each_page change (suc count) mv page_nr =
    let rp = change (mv.residency_map page_nr) in
    each_page change count (record mv { residency_map = update mv.residency_map page_nr rp })
      (page_nr + 1)

unfoldable pub vbar_consumer_acquire : XpuVbar → (offset size kind : ℕ) → Bool × XpuVbar
unfolding all_pages each_page can_hold hold_page
vbar_consumer_acquire mv offset size kind =
    let first = vbar_get_page_nr offset in
    let page_end = vbar_get_page_nr_up (add64 offset size) in
    if size == 0 || ltb (uint64_max - size) offset
    then (false, mv)
    else if not mv.closing
        && leb page_end mv.nr_pages
        && all_pages (can_hold kind) (page_end - first) mv first
    then (true, each_page (hold_page kind) (page_end - first) mv first)
    else (false, mv)

-- The result is none where the source returns -1, else whether the queue is known.
unfoldable pub vbar_consumer_release :
    (known async : Bool) (token : ℕ) → XpuVbar → (offset size kind : ℕ) → Option Bool × XpuVbar
unfolding all_pages each_page can_release release_hold
vbar_consumer_release known async token mv offset size kind =
    let first = vbar_get_page_nr offset in
    let page_end = vbar_get_page_nr_up (add64 offset size) in
    if size == 0 || ltb (uint64_max - size) offset
    then (none, mv)
    else if leb page_end mv.nr_pages && all_pages (can_release kind) (page_end - first) mv first
    then (some known, each_page (release_hold known async token kind) (page_end - first) mv first)
    else (none, mv)
