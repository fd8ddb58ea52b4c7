-- ===== src/HttpApi/Server/Trust.antt =====
-- Which requests can change what the service holds.
use task_worker.Base.{
  Bool-cases, List, [], arith, inl, inr, length, none, refl, some, true, ◌++◌, ◌==◌, ◌∷◌, ◌≡◌, ◌⊎◌,
  Option, Option-cases, ap, false, sym, ◌!=◌, ◌∙◌, Bytes-comparable, ℕ-comparable,
}
use task_worker.HttpApi.Server.{
  Address, HttpRequest, same_authority, same_origin, good_origins, good_sites, refuse_early,
  refuse_command, one_value, good_media,
}
use task_worker.HttpApi.Routes.{post_method}
use task_worker.Text.{Text, bytes, cut_prefix, trim_suffix}

-- The server's own address, or that address without the port 80.
abbrev pub IsAuthority : Text → Address → Type 0
IsAuthority t a = (t ≡ a.host) ⊎ ((a.port ≡ some (bytes "80")) × (a.host ≡ t ++ bytes ":80"))

-- A request that comes from the server's own pages, or from a program that is no browser.
pub record IsTrusted (a : Address) (r : HttpRequest) : Type 0 where
  pub own_host : IsAuthority r.host a
  pub own_origin :
      (r.origins ≡ none)
      ⊎ ((t : Text) × (r.origins ≡ some ((bytes "http://" ++ t) ∷ [])) × IsAuthority t a)
  pub own_site :
      (r.fetch_sites ≡ none)
      ⊎ ((r.fetch_sites ≡ some (bytes "same-origin" ∷ []))
          ⊎ (r.fetch_sites ≡ some (bytes "none" ∷ [])))

-- A POST of one JSON document.
pub record IsCommand (r : HttpRequest) : Type 0 where
  pub posted : r.method ≡ post_method
  pub one_type : length r.content_types ≡ 1
  pub plain_coding : r.content_encodings ≡ []
  pub is_json : (params : List (Text × Text)) × (r.media ≡ some (bytes "application/json", params))

trim_suffix_cases : (x s : Text) → (trim_suffix x s ≡ s) ⊎ (s ≡ trim_suffix x s ++ x)
unfolding trim_suffix
trim_suffix_cases x [] = inl refl
trim_suffix_cases x (c ∷ cs) = elim (Bool-cases (c ∷ cs == x)) [
  | inl e ↦ inr (ground (arith, e))
  | inr e ↦ elim (trim_suffix_cases x cs) [
    | inl same ↦ inl (ground (arith, e, same))
    | inr cut ↦ inr (ground (arith, e, cut))
  ]
]

same_authority-IsAuthority : (t : Text) (a : Address) → same_authority t a ≡ true → IsAuthority t a
unfolding same_authority
same_authority-IsAuthority t a h = elim (Bool-cases (t == a.host)) [
  | inl e ↦ inl (ground (arith, e))
  | inr ne ↦
      let port : a.port ≡ some (bytes "80") = ground (arith, h, ne) in
      let rest : t ≡ trim_suffix (bytes ":80") a.host = ground (arith, h, ne) in
      elim (trim_suffix_cases (bytes ":80") a.host) [
        | inl same ↦ inl (rest ∙ same)
        | inr cut ↦ inr (port, cut ∙ ap (λ (u : Text). u ++ bytes ":80") (sym rest))
      ]
]

cut_prefix-some : (x s t : Text) → cut_prefix x s ≡ some t → s ≡ x ++ t
unfolding cut_prefix
cut_prefix-some [] s t h = ground (arith, h)
cut_prefix-some (b ∷ bs) [] t h = cc
cut_prefix-some (b ∷ bs) (c ∷ cs) t h = ground (arith, h, cut_prefix-some bs cs t)

good_origins-inv :
    (o : Option (List Text)) (a : Address)
    → good_origins o a ≡ true
    → (o ≡ none) ⊎ ((t : Text) × (o ≡ some ((bytes "http://" ++ t) ∷ [])) × IsAuthority t a)
unfolding good_origins same_origin
good_origins-inv none a h = inl refl
good_origins-inv (some []) a h = cc
good_origins-inv (some (x ∷ y ∷ ys)) a h = cc
good_origins-inv (some (x ∷ [])) a h = elim (Option-cases (cut_prefix (bytes "http://") x)) [
  | inl e ↦ absurd (ground (arith, e, h))
  | inr (t, e) ↦ inr (
    t,
    ap (λ (y : Text). some (y ∷ [])) (cut_prefix-some (bytes "http://") x t e),
    same_authority-IsAuthority t a (ground (arith, e, h)),
  )
]

good_sites-inv :
    (o : Option (List Text))
    → good_sites o ≡ true
    → (o ≡ none) ⊎ ((o ≡ some (bytes "same-origin" ∷ [])) ⊎ (o ≡ some (bytes "none" ∷ [])))
unfolding good_sites
good_sites-inv none h = inl refl
good_sites-inv (some []) h = cc
good_sites-inv (some (x ∷ y ∷ ys)) h = cc
good_sites-inv (some (x ∷ [])) h = elim (Bool-cases (x == bytes "same-origin")) [
  | inl e ↦ inr (inl (ground (arith, e)))
  | inr e ↦ inr (inr (ground (arith, e, h)))
]

pub refuse_early-none : (a : Address) (r : HttpRequest) → refuse_early a r ≡ none → IsTrusted a r
unfolding refuse_early
refuse_early-none a r h = record {
  own_host = same_authority-IsAuthority r.host a (ground (arith, h));
  own_origin = good_origins-inv r.origins a (ground (arith, h));
  own_site = good_sites-inv r.fetch_sites (ground (arith, h));
}

good_media-inv :
    (m : Option (Text × List (Text × Text)))
    → good_media m ≡ true
    → (params : List (Text × Text)) × (m ≡ some (bytes "application/json", params))
good_media-inv none h = cc
good_media-inv (some (media, params)) h =
    let e : media ≡ bytes "application/json" = ground (arith, h) in
    (params, ap (λ (x : Text). some (x, params)) e)

one_value-length : (l : List Text) → one_value l ≡ true → length l ≡ 1
one_value-length [] h = cc
one_value-length (x ∷ []) h = omega arith
one_value-length (x ∷ y ∷ l) h = cc

no_entries : (l : List Text) → (length l != 0) ≡ false → l ≡ []
no_entries [] h = refl
no_entries (x ∷ xs) h = absurd (ground (arith, h))

pub refuse_command-none :
    (r : HttpRequest) → r.method ≡ post_method → refuse_command r ≡ none → IsCommand r
unfolding refuse_command
refuse_command-none r m h = record {
  posted = m;
  one_type = one_value-length r.content_types (ground (arith, h));
  plain_coding = no_entries r.content_encodings (ground (arith, h));
  is_json = good_media-inv r.media (ground (arith, h));
}
