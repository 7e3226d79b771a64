-- ===== src/Importer/SourceLaws.antt =====
-- Normal forms of sources, which are taken once.
use easy_proxies.Prelude.{
  true, false, str_eq, trim, trim-trim, trim_start, trim_end, keep_char, ◌≡◌, refl, ap, sym, ◌∙◌,
  arith, Bool-cases, inl, inr,
}
use easy_proxies.Importer.Nodes.{NodeSourceRef}
use easy_proxies.Importer.Sources.{
  is_url_source_ref, trimmed, with_mode, with_fetch_policy, normalize_source_ref,
}

trimmed_twice : (r : NodeSourceRef) → trimmed (trimmed r) ≡ trimmed r
trimmed_twice r = λ i. record {
  tag_prefix = trim-trim r.tag_prefix i;
  import_id = trim-trim r.import_id i;
  mode = trim-trim r.mode i;
  source = trim-trim r.source i;
  format = trim-trim r.format i;
  chain_profile_id = trim-trim r.chain_profile_id i;
  fetch_policy = trim-trim r.fetch_policy i;
}

url_mode : (t : NodeSourceRef) → t.mode ≡ "url" → is_url_source_ref t ≡ true
unfolding is_url_source_ref trim trim_start trim_end keep_char
url_mode t e = rw e refl

same_url :
    (s t : NodeSourceRef)
    → s.mode ≡ t.mode
    → s.source ≡ t.source
    → is_url_source_ref s ≡ is_url_source_ref t
unfolding is_url_source_ref
same_url s t m e = rw m (rw e refl)

abbrev auto_policy : NodeSourceRef → NodeSourceRef
auto_policy t = record t { fetch_policy = "auto" }

abbrev url_policy : NodeSourceRef → NodeSourceRef
url_policy t = record t { mode = "url"; fetch_policy = "auto" }

trimmed-auto_policy : (t : NodeSourceRef) → trimmed t ≡ t → trimmed (auto_policy t) ≡ auto_policy t
unfolding trim trim_start trim_end keep_char
trimmed-auto_policy t h = λ i. record (h i) { fetch_policy = "auto" }

trimmed-url_policy : (t : NodeSourceRef) → trimmed t ≡ t → trimmed (url_policy t) ≡ url_policy t
unfolding trim trim_start trim_end keep_char
trimmed-url_policy t h = λ i. record (h i) { mode = "url"; fetch_policy = "auto" }

-- The forms that a trimmed source takes.
plain_form : (t : NodeSourceRef) → is_url_source_ref t ≡ false → with_fetch_policy (with_mode t) ≡ t
plain_form t n = ground arith

url_form :
    (t : NodeSourceRef)
    → is_url_source_ref t ≡ true
    → str_eq t.mode "" ≡ true
    → with_fetch_policy (with_mode t) ≡ url_policy t
url_form t y e = ground (arith, url_mode (record t { mode = "url" }) refl)

auto_form :
    (t : NodeSourceRef)
    → is_url_source_ref t ≡ true
    → str_eq t.mode "" ≡ false
    → with_fetch_policy (with_mode t) ≡ auto_policy t
auto_form t y n = ground arith

-- A trimmed source in one of these forms is in normal form.
normal_at :
    (t u : NodeSourceRef)
    → with_fetch_policy (with_mode t) ≡ u
    → trimmed u ≡ u
    → with_fetch_policy (with_mode u) ≡ u
    → normalize_source_ref (with_fetch_policy (with_mode t)) ≡ with_fetch_policy (with_mode t)
unfolding normalize_source_ref
normal_at t u form same fixed =
    ap normalize_source_ref form ∙ ap (λ x. with_fetch_policy (with_mode x)) same ∙ fixed ∙ sym form

-- A source whose fields are trimmed is in normal form once its mode and policy are set.
settled :
    (t : NodeSourceRef)
    → trimmed t ≡ t
    → normalize_source_ref (with_fetch_policy (with_mode t)) ≡ with_fetch_policy (with_mode t)
settled t h = elim (Bool-cases (is_url_source_ref t)) [
  | inr n ↦ normal_at t t (plain_form t n) h (plain_form t n)
  | inl y ↦ elim (Bool-cases (str_eq t.mode "")) [
    | inl e ↦
        normal_at t (url_policy t) (url_form t y e) (trimmed-url_policy t h)
          (auto_form (url_policy t) (url_mode (url_policy t) refl) refl)
    | inr n ↦
        normal_at t (auto_policy t) (auto_form t y n) (trimmed-auto_policy t h)
          (auto_form (auto_policy t) (same_url (auto_policy t) t refl refl ∙ y) n)
  ]
]

-- Normalising a source a second time changes nothing.
pub normalize_source_ref_twice :
    (r : NodeSourceRef) → normalize_source_ref (normalize_source_ref r) ≡ normalize_source_ref r
unfolding normalize_source_ref
normalize_source_ref_twice r = settled (trimmed r) (trimmed_twice r)
