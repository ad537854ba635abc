-- ===== src/Config/Valid.antt =====
-- What the configuration promises.
use mathlib.Core.Path.{subst}
use Prim.Native.String.{String}
use neotolis_ai_workbench.Base.{
  ℕ, ◌*◌, ◌<◌, ◌≡◌, refl, ◌<>◌, false, Option, none, some, List, [], ◌∷◌, inl, inr, arith,
  Bool-cases, str-cases, decimal, get_or, str_eq,
}
use neotolis_ai_workbench.Numbers.{Digits, IsAscii, number, span}
use neotolis_ai_workbench.Numbers.RoundTrip.{span-decimal}
use neotolis_ai_workbench.Json.{Json, str, Fields, end, get, equals_one}
use neotolis_ai_workbench.Config.{
  resolve_docker_proxy_url, Env, Yaml, empty, mapping, unparsable, other_value, Text, missing, bad,
  text, text_at, given, loaded, configured, with_parsed, parse_size, with_size, with_image,
  with_url, with_version, with_keys, known_keys, load, from_yaml, default_docker_proxy_url,
  default_task_image, default_max_data_size_bytes, Config, Size, size, sized, sized_by, unit_bytes,
  parse_max_data_size,
}

-- What parses is positive.
sized_by-pos :
    (D : Digits) (m : ℕ) (rest : String) (b : Option ℕ) {n : ℕ}
    → sized_by D m rest b ≡ size n
    → 0 < n
unfolding sized_by
sized_by-pos D m rest (some bytes) h = ground arith
sized_by-pos D m rest none h = absurd (ground arith)

sized-pos : (D : Digits) (ds : List ℕ) (rest : String) {n : ℕ} → sized D ds rest ≡ size n → 0 < n
unfolding sized
sized-pos D [] rest h = cc h
sized-pos D (d ∷ ds) rest h = sized_by-pos D (number 0 (d ∷ ds)) rest (unit_bytes rest) h

sized_by-unit :
    (D : Digits) (m : ℕ) (rest : String) (bytes : ℕ)
    → 0 < m * bytes
    → sized_by D m rest (some bytes) ≡ size (m * bytes)
unfolding sized_by
sized_by-unit D m rest bytes h = ground arith

mul-pos : (n m : ℕ) → 0 < n → 0 < m → 0 < n * m
mul-pos n m h k = grind arith

unit_bytes-pos : (unit : String) {bytes : ℕ} → unit_bytes unit ≡ some bytes → 0 < bytes
unfolding unit_bytes
unit_bytes-pos unit h = ground arith

module _ (D : Digits) (A : IsAscii D) where
  -- A unit begins with no digit.
  span-unit : (unit : String) {bytes : ℕ} → unit_bytes unit ≡ some bytes → span D unit ≡ ([], unit)
  unfolding span unit_bytes
  span-unit unit h = elim (str-cases unit "KiB") [
    | inl e ↦ rw (e, A.no_value b'K' (omega arith) refl)
    | inr n₁ ↦ elim (str-cases unit "MiB") [
      | inl e ↦ rw (e, A.no_value b'M' (omega arith) refl)
      | inr n₂ ↦ elim (str-cases unit "GiB") [
        | inl e ↦ rw (e, A.no_value b'G' (omega arith) refl)
        | inr n₃ ↦ elim (str-cases unit "TiB") [
          | inl e ↦ rw (e, A.no_value b'T' (omega arith) refl)
          | inr n₄ ↦ absurd (cc (rw (n₁, n₂, n₃, n₄) at h))
        ]
      ]
    ]
  ]

  sized-unit :
      (ds : List ℕ) (unit : String) (n bytes : ℕ)
      → number 0 ds ≡ n
      → 0 < n
      → 0 < bytes
      → unit_bytes unit ≡ some bytes
      → sized D ds unit ≡ size (n * bytes)
  unfolding sized
  sized-unit [] unit n bytes e p q u = absurd (unfold number in omega arith)
  sized-unit (d ∷ ds) unit n bytes e p q u =
      rw (u, e) (sized_by-unit D n unit bytes (mul-pos n bytes p q))

  -- A positive number of a binary unit, written in decimal, is read as that many bytes.
  pub parse-decimal :
      (strip : String → String) (n : ℕ) (unit : String) {bytes : ℕ}
      → 0 < n
      → unit_bytes unit ≡ some bytes
      → strip (decimal n <> unit) ≡ decimal n <> unit
      → parse_max_data_size D strip (decimal n <> unit) ≡ size (n * bytes)
  unfolding parse_max_data_size
  parse-decimal strip n unit {bytes} p u s =
      let (e, r) = span-decimal D A n unit (span-unit unit u) in
      rw (s, r)
        (sized-unit (span D (decimal n <> unit)).0 unit n bytes e p (unit_bytes-pos unit u) u)

-- A configuration that the controller can work with.
pub record IsValid (c : Config) : Type 0 where
  pub has_url : str_eq c.docker_proxy_url "" ≡ false
  pub has_image : str_eq c.task_image "" ≡ false
  pub has_room : 0 < c.max_data_size

given-ne :
    (o : Option String) (d : String) → str_eq d "" ≡ false → str_eq (get_or (given o) d) "" ≡ false
unfolding given
given-ne none d h = h
given-ne (some s) d h = elim (Bool-cases (str_eq s "")) [ inl e ↦ rw e h | inr n ↦ rw n n ]

text_at-ne : (v : Option Json) {s : String} → text_at v ≡ text s → str_eq s "" ≡ false
unfolding text_at
text_at-ne (some (str t)) h = elim (Bool-cases (str_eq t "")) [
  | inl e ↦ cc (rw e at h)
  | inr n ↦ cc (n, (rw n at h))
]
text_at-ne (some _) h = cc h
text_at-ne none h = cc h

parse_size-pos :
    (D : Digits) (strip : String → String) (v : Json) (n : ℕ)
    → parse_size D strip v ≡ size n
    → 0 < n
unfolding parse_size parse_max_data_size
parse_size-pos D strip (str raw) n h = sized-pos D (span D (strip raw)).0 (span D (strip raw)).1 h
parse_size-pos D strip _ n h = cc h

module _ (D : Digits) (strip : String → String) (env : Env) {c : Config} where
  configured-IsValid :
      (url : Option String) (image : String) (n : ℕ)
      → str_eq (get_or url default_docker_proxy_url) "" ≡ false
      → str_eq image "" ≡ false
      → 0 < n
      → configured D strip env url image n ≡ c
      → IsValid c
  unfolding configured resolve_docker_proxy_url
  configured-IsValid url image n u i p h = subst IsValid h (record {
    has_url = given-ne env.naiw_docker_proxy_url (get_or url default_docker_proxy_url) u;
    has_image = i;
    has_room = p;
  })

  with_parsed-IsValid :
      (url : Option String) (image : String) (r : Size)
      → str_eq (get_or url default_docker_proxy_url) "" ≡ false
      → str_eq image "" ≡ false
      → ((n : ℕ) → r ≡ size n → 0 < n)
      → with_parsed D strip env url image r ≡ loaded c
      → IsValid c
  unfolding with_parsed
  with_parsed-IsValid url image (size n) u i p h =
      configured-IsValid url image n u i (p n refl) (cc h)
  with_parsed-IsValid url image _ u i p h = cc h

  with_size-IsValid :
      (url : Option String) (image : String) (v : Option Json)
      → str_eq (get_or url default_docker_proxy_url) "" ≡ false
      → str_eq image "" ≡ false
      → with_size D strip env url image v ≡ loaded c
      → IsValid c
  unfolding with_size
  with_size-IsValid url image none u i h =
      configured-IsValid url image default_max_data_size_bytes u i (omega arith) (cc h)
  with_size-IsValid url image (some v) u i h =
      with_parsed-IsValid url image (parse_size D strip v) u i (parse_size-pos D strip v) h

  with_image-IsValid :
      (raw : Fields) (url : Option String) (t : Text)
      → str_eq (get_or url default_docker_proxy_url) "" ≡ false
      → ((s : String) → t ≡ text s → str_eq s "" ≡ false)
      → with_image D strip env raw url t ≡ loaded c
      → IsValid c
  unfolding with_image
  with_image-IsValid raw url missing u i h =
      with_size-IsValid url default_task_image (get "max_data_size" raw) u refl h
  with_image-IsValid raw url (text image) u i h =
      with_size-IsValid url image (get "max_data_size" raw) u (i image refl) h
  with_image-IsValid raw url bad u i h = cc h

  with_url-IsValid :
      (raw : Fields) (t : Text)
      → ((s : String) → t ≡ text s → str_eq s "" ≡ false)
      → with_url D strip env raw t ≡ loaded c
      → IsValid c
  unfolding with_url
  with_url-IsValid raw missing u h =
      with_image-IsValid raw none (text_at (get "task_image" raw)) refl
        (λ s. text_at-ne (get "task_image" raw)) h
  with_url-IsValid raw (text url) u h =
      with_image-IsValid raw (some url) (text_at (get "task_image" raw)) (u url refl)
        (λ s. text_at-ne (get "task_image" raw)) h
  with_url-IsValid raw bad u h = cc h

  with_version-IsValid :
      (raw : Fields) (v : Option Json) → with_version D strip env raw v ≡ loaded c → IsValid c
  unfolding with_version
  with_version-IsValid raw none h =
      with_url-IsValid raw (text_at (get "docker_proxy_url" raw))
        (λ s. text_at-ne (get "docker_proxy_url" raw)) h
  with_version-IsValid raw (some v) h = elim (Bool-cases (equals_one (some v))) [
    | inl e ↦
        with_url-IsValid raw (text_at (get "docker_proxy_url" raw))
          (λ s. text_at-ne (get "docker_proxy_url" raw)) (rw e at h)
    | inr n ↦ cc (rw n at h)
  ]

  with_keys-IsValid : (raw : Fields) → with_keys D strip env raw ≡ loaded c → IsValid c
  unfolding with_keys
  with_keys-IsValid raw h = elim (Bool-cases (known_keys raw)) [
    | inl e ↦ with_version-IsValid raw (get "schema_version" raw) (rw e at h)
    | inr n ↦ cc (rw n at h)
  ]

  -- A configuration that is loaded has a proxy URL and an image that are not empty, and a size limit
  -- that is not zero, whatever config.yaml and the environment say.
  pub load-IsValid : (yaml : Option Yaml) → load D strip env yaml ≡ loaded c → IsValid c
  unfolding load from_yaml
  load-IsValid none h =
      configured-IsValid none default_task_image default_max_data_size_bytes refl refl (omega arith)
        (cc h)
  load-IsValid (some empty) h = with_keys-IsValid end h
  load-IsValid (some (mapping raw)) h = with_keys-IsValid raw h
  load-IsValid (some unparsable) h = cc h
  load-IsValid (some other_value) h = cc h
