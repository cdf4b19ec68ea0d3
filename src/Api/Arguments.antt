-- ===== src/Api/Arguments.antt =====
-- The option -h of the programs: parse_args of src/libpubsub.cpp.
use libpubsub.Base.{
  All, Bool-cases, Bytes, Lacks, List, [], append-nil, append_assoc, arith, codes, eq_ℤ_iff, equal,
  equal_iff, false, inl, inr, refl, some, true, ℕ, ℤ, ◌++◌, ◌==◌, ◌∙◌, ◌∷◌, ◌≡◌,
}
use libpubsub.Text.{str_before, str_after}
use libpubsub.Text.Decimal.{atoi}
use libpubsub.World.{World, ok, Env, dialled}
use libpubsub.Mesh.{get_host, add_host_url, has_address, remote_host}
use libpubsub.Mesh.Distinct.{IsRegistry, add_host-registered}
use libpubsub.Api.{strtok, add_hosts, parse_args}

-- A name between separators: it is not empty and has none.
abbrev pub IsName : ℕ → Bytes → Type 0
IsName sep name = (equal name [] ≡ false) × Lacks sep name

-- Names behind one another, each with the separator before it.
listed : ℕ → List Bytes → Bytes
listed sep [] = []
listed sep (name ∷ names) = sep ∷ (name ++ listed sep names)

-- Names with the separator between them.
unfoldable pub joined : ℕ → List Bytes → Bytes
unfolding listed
joined sep [] = []
joined sep (name ∷ names) = name ++ listed sep names

strtok-append :
    (sep : ℕ) (piece name s : Bytes)
    → Lacks sep name
    → strtok sep piece (name ++ s) ≡ strtok sep (piece ++ name) s
unfolding strtok
strtok-append sep piece [] s l = rw (append-nil piece) refl
strtok-append sep piece (c ∷ name) s (d, l) =
    let other : (c == sep) ≡ false = ground (arith, d) in
    rw (other, strtok-append sep (piece ++ (c ∷ [])) name s l, append_assoc piece (c ∷ []) name)
      refl

strtok-listed :
    (sep : ℕ) (piece : Bytes) (names : List Bytes)
    → equal piece [] ≡ false
    → All (IsName sep) names
    → strtok sep piece (listed sep names) ≡ piece ∷ names
unfolding strtok listed
strtok-listed sep piece [] e a = rw e refl
strtok-listed sep piece (name ∷ names) e ((f, l), a) =
    let same : (sep == sep) ≡ true = ground arith in
    rw (same, e, strtok-append sep [] name (listed sep names) l, strtok-listed sep name names f a)
      refl

-- strtok gives the names back.
strtok-joined :
    (sep : ℕ) (names : List Bytes)
    → All (IsName sep) names
    → strtok sep [] (joined sep names) ≡ names
unfolding joined
strtok-joined sep [] a = unfold strtok equal in refl
strtok-joined sep (name ∷ names) ((e, l), a) =
    strtok-append sep [] name (listed sep names) l ∙ strtok-listed sep name names e a

-- The process has a host of the address.
abbrev pub IsKnown : Bytes → ℤ → World → Type 0
IsKnown ip port w = (h : ℕ) × (get_host ip port w ≡ some h)

-- The address that a url "ip:port" names.
abbrev pub url_ip : Bytes → Bytes
url_ip url = str_before url (codes ":")

abbrev pub url_port : Bytes → ℤ
url_port url = atoi (str_after url (codes ":"))

same_address :
    (ip ip' : Bytes) (port port' : ℤ)
    → has_address ip' port' (remote_host ip port false) ≡ true
    → (ip' ≡ ip) × (port' ≡ port)
unfolding has_address
same_address ip ip' port port' h = (
  ground (arith, equal_iff ip ip', eq_ℤ_iff port port'),
  ground (arith, equal_iff ip ip', eq_ℤ_iff port port'),
)

-- add_host of one more url.
abbrev Adds : Env → Bytes → World → World → Type 0
Adds e url w w' =
    (add_host_url e url w ≡ ok w')
    × IsRegistry w'
    × IsKnown (url_ip url) (url_port url) w'
    × ((ip : Bytes) (port : ℤ) → IsKnown ip port w → IsKnown ip port w')

add_host_url-Adds :
    (e : Env) (url : Bytes) (w : World)
    → IsRegistry w
    → e.dial (url_ip url) ≡ dialled
    → (w' : World) × Adds e url w w'
unfolding add_host_url
add_host_url-Adds e url w r d =
    let (w', k, r', found, others, again) =
      add_host-registered e e (url_ip url) (url_port url) w r d in
    (
      w',
      (
        k,
        r',
        found,
        λ ip port (h, f).
            elim (Bool-cases
              (has_address ip port (remote_host (url_ip url) (url_port url) false))) [
                | inl y ↦
                    let (i, p) = same_address (url_ip url) ip (url_port url) port y in
                    rw (i, p) found
                | inr x ↦ (h, others ip port x ∙ f)
              ],
      ),
    )

add_hosts-registered :
    (e : Env) (urls : List Bytes) (w : World)
    → IsRegistry w
    → All (λ url. e.dial (url_ip url) ≡ dialled) urls
    → (w' : World) × (add_hosts e urls w ≡ ok w')
      × IsRegistry w'
      × All (λ url. IsKnown (url_ip url) (url_port url) w') urls
      × ((ip : Bytes) (port : ℤ) → IsKnown ip port w → IsKnown ip port w')
unfolding add_hosts
add_hosts-registered e [] w r d = (w, refl, r, tt, λ ip port k. k)
add_hosts-registered e (url ∷ urls) w r (d, ds) =
    let (v, (k, r1, found, keeps)) = add_host_url-Adds e url w r d in
    let (w', ks, r2, founds, keep) = add_hosts-registered e urls v r1 ds in
    (
      w',
      rw (k, add_hosts) ks,
      r2,
      (keep (url_ip url) (url_port url) found, founds),
      λ ip port known. keep ip port (keeps ip port known),
    )

-- In a process whose registered hosts are allocated and have distinct addresses, parse_args of
-- "-h url1,...,urln" and any further arguments returns, where the urls are not empty and have no comma and
-- their names resolve. Afterwards the addresses are still distinct, each url's host is registered, and
-- so is each host that was.
pub parse_args-registered :
    (e : Env) (program : Bytes) (urls rest : List Bytes) (w : World)
    → IsRegistry w
    → All (IsName b',') urls
    → All (λ url. e.dial (url_ip url) ≡ dialled) urls
    → (w' : World) × (parse_args e (program ∷ codes "-h" ∷ joined b',' urls ∷ rest) w ≡ ok w')
      × IsRegistry w'
      × All (λ url. IsKnown (url_ip url) (url_port url) w') urls
      × ((ip : Bytes) (port : ℤ) → IsKnown ip port w → IsKnown ip port w')
parse_args-registered e program urls rest w r names d =
    let (w', k, r', found, kept) = add_hosts-registered e urls w r d in
    let parts = strtok-joined b',' urls names in
    (w', unfold parse_args in rw parts k, r', found, kept)
