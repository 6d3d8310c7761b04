-- ===== src/Config/Settings.antt =====
-- The secrets and the origins of a configuration that was loaded.
use Prim.Native.String
use mathlib.Core.List.{Memᴰ}
use mathlib.Core.List.Memᴰ
use politburo.Prelude.{
  String, List, [], ◌∷◌, ◌==◌, ◌≡◌, ◌≢◌, ◌⊎◌, inl, inr, refl, subst, arith, eq_iff, Bool-cases,
}
use politburo.Strings.{trim_space, trim_left, trim_right, is_space}
use politburo.Strings.Laws.{trim_space_idem}
use politburo.Config.{Config, ok, and_then-ok, err≢ok}
use politburo.Config.Env.{System, secret, kept_items, split_commas, csv}
use politburo.Config.Valid.{load-Origin}
use politburo.Config.Load.{Secrets, read_secrets, config_of, load}

-- a setting that is not given twice
abbrev pub IsExclusive : System → String → Type 0
IsExclusive sys key = (sys.getenv key ≡ "") ⊎ (sys.getenv (String.◌++◌ key "_FILE") ≡ "")

abbrev pub AreExclusive : System → List String → Type 0
AreExclusive sys [] = Unit
AreExclusive sys (key ∷ keys) = IsExclusive sys key × AreExclusive sys keys

abbrev pub secret_keys : List String
secret_keys =
    "DATABASE_URL" ∷ "PG_PASSWORD" ∷ "REDIS_PASSWORD" ∷ "IF_API_KEY" ∷ "SIGNED_LINK_SECRET" ∷ []

-- an origin that can stand in a list: not blank, without space around it
abbrev pub IsItem : String → Type 0
IsItem s = (s ≢ "") × (trim_space s ≡ s)

kept_items-IsItem : (l : List String) (s : String) → Memᴰ s (kept_items l) → IsItem s
unfolding kept_items
kept_items-IsItem [] s m = absurd (Memᴰ.not-nil m)
kept_items-IsItem (x ∷ l) s m = elim (Bool-cases (trim_space x == "")) [
  | inl blank ↦ kept_items-IsItem l s (rw blank at m)
  | inr given ↦ elim (Memᴰ.cases_cons (rw given at m)) [
    | inl same ↦
        let item : IsItem (trim_space x) =
          (ground (arith, eq_iff (trim_space x) ""), trim_space_idem x) in
        rw same item
    | inr later ↦ kept_items-IsItem l s later
  ]
]

module _ (sys : System) where
  csv-IsItem :
      (key : String) (fallback : List String) (s : String)
      → ((t : String) → Memᴰ t fallback → IsItem t)
      → Memᴰ s (csv sys key fallback)
      → IsItem s
  unfolding csv
  csv-IsItem key fallback s clean m = elim (Bool-cases (sys.getenv key == "")) [
    | inl blank ↦ clean s (rw blank at m)
    | inr given ↦ kept_items-IsItem (split_commas (sys.getenv key)) s (rw given at m)
  ]

  secret-IsExclusive :
      (key fallback value : String) → secret sys key fallback ≡ ok value → IsExclusive sys key
  unfolding secret
  secret-IsExclusive key fallback value e =
      let path = sys.getenv (String.◌++◌ key "_FILE") in
      elim (Bool-cases (sys.getenv key == "")) [
        | inl blank ↦ inl (ground (arith, eq_iff (sys.getenv key) ""))
        | inr given ↦ elim (Bool-cases (path == "")) [
          | inl blank ↦ inr (ground (arith, eq_iff path ""))
          | inr named ↦ absurd (err≢ok (rw (given, named) at e))
        ]
      ]

  read_secrets-AreExclusive : (s : Secrets) → read_secrets sys ≡ ok s → AreExclusive sys secret_keys
  unfolding read_secrets
  read_secrets-AreExclusive s e =
      let (v1, r1, e1) = and_then-ok _ _ s e in
      let (v2, r2, e2) = and_then-ok _ _ s e1 in
      let (v3, r3, e3) = and_then-ok _ _ s e2 in
      let (v4, r4, e4) = and_then-ok _ _ s e3 in
      let (v5, r5, e5) = and_then-ok _ _ s e4 in
      (
        secret-IsExclusive _ _ v1 r1,
        (
          secret-IsExclusive _ _ v2 r2,
          (
            secret-IsExclusive _ _ v3 r3,
            (secret-IsExclusive _ _ v4 r4, (secret-IsExclusive _ _ v5 r5, tt)),
          ),
        ),
      )

  default_origins-IsItem :
      (t : String) → Memᴰ t ("http://localhost:8081" ∷ "http://127.0.0.1:8081" ∷ []) → IsItem t
  unfolding trim_space trim_left trim_right is_space
  default_origins-IsItem t m = elim (Memᴰ.cases_cons m) [
    | inl same ↦ let item : IsItem "http://localhost:8081" = (λ e. cc, refl) in rw same item
    | inr later ↦ elim (Memᴰ.cases_cons later) [
      | inl same ↦ let item : IsItem "http://127.0.0.1:8081" = (λ e. cc, refl) in rw same item
      | inr none_left ↦ absurd (Memᴰ.not-nil none_left)
    ]
  ]

  -- A configuration is loaded only if no secret is given both by its variable and by a file. Its
  -- allowed origins have no blank item, and no item with space around it.
  pub load-AreExclusive :
      (cfg : Config)
      → load sys ≡ ok cfg
      → AreExclusive sys secret_keys × ((s : String) → Memᴰ s cfg.http.allowed_origins → IsItem s)
  unfolding config_of
  load-AreExclusive cfg e =
      let (s, b, read, same, _) = load-Origin sys cfg e in
      (
        read_secrets-AreExclusive s read,
        subst (λ (c : Config). (s : String) → Memᴰ s c.http.allowed_origins → IsItem s) same
            (λ t m. csv-IsItem "CORS_ALLOWED_ORIGINS" _ t default_origins-IsItem m),
      )
