-- ===== src/Vcs/Normal.antt =====
-- The spellings of one repository's URL are one after normalization.
use reactorcide.Prelude.{
  ◌≡◌, refl, sym, ap, ◌∙◌, subst, inl, inr, ◌++◌, ℕ, [], ◌∷◌, Bool, true, false, ◌==◌, Bytes, codes,
  bytes_eq, bytes_eq_iff, is_empty, is_space, has_prefix, trim_space, trim_left, trim_right, length,
  All, Bool-cases, arith, length-append,
}
use mathlib.Core.List.{append_assoc, append-nil}
use reactorcide.Vcs.Urls.{
  trim_prefix, trim_suffix, replace_first, without_git_user, without_scheme, normalize_repo_url,
  match_repo_url, raw_host, github_host,
}

-- The character does not occur.
abbrev pub Lacks : ℕ → Bytes → Type 0
Lacks k s = All (λ c. (c == k) ≡ false) s

-- How a repository may be written.
pub data Scheme : Type 0 where
  https_scheme http_scheme git_scheme ssh_scheme no_scheme scp_scheme : Scheme

abbrev pub written : Scheme → Bytes → Bytes → Bytes
written https_scheme host path = codes "https://" ++ (host ++ (47 ∷ path))
written http_scheme host path = codes "http://" ++ (host ++ (47 ∷ path))
written git_scheme host path = codes "git://" ++ (host ++ (47 ∷ path))
written ssh_scheme host path = codes "ssh://git@" ++ (host ++ (47 ∷ path))
written no_scheme host path = host ++ (47 ∷ path)
written scp_scheme host path = codes "git@" ++ (host ++ (58 ∷ path))

-- No character of a scheme or a user is in the host, and the path has no colon and no blank at its end.
pub record IsPlain (host path : Bytes) : Type 0 where
  pub no_blank : All (λ c. is_space c ≡ false) host
  pub no_colon : Lacks 58 host
  pub no_at : Lacks 64 host
  pub path_no_colon : Lacks 58 path
  pub path_trimmed : trim_right path ≡ path

-- A text up to `k`, without a slash, is no prefix of a text that lacks `k` up to its first slash.
has_prefix-Lacks :
    (k : ℕ) (t u h rest : Bytes)
    → (47 == k) ≡ false
    → Lacks 47 t
    → Lacks k h
    → has_prefix (h ++ (47 ∷ rest)) (t ++ (k ∷ u)) ≡ false
unfolding has_prefix
has_prefix-Lacks k [] u [] rest slash lt lh = rw slash refl
has_prefix-Lacks k [] u (c ∷ h) rest slash lt lh = rw lh.0 refl
has_prefix-Lacks k (x ∷ t) u [] rest slash lt lh = let e : (x == 47) ≡ false = lt.0 in ground arith
has_prefix-Lacks k (x ∷ t) u (c ∷ h) rest slash lt lh =
    let next = has_prefix-Lacks k t u h rest slash lt.1 lh.1 in
    elim (Bool-cases (c == x)) [ inl e ↦ rw (e, next) refl | inr e ↦ rw e refl ]

trim_right-append :
    (s t : Bytes) → is_empty t ≡ false → trim_right t ≡ t → trim_right (s ++ t) ≡ s ++ t
unfolding trim_right
trim_right-append [] t full h = h
trim_right-append (c ∷ s) t full h =
    rw (trim_right-append s t full h, is_empty-append s t full) refl
  where
    is_empty-append : (s t : Bytes) → is_empty t ≡ false → is_empty (s ++ t) ≡ false
    is_empty-append [] t full = full
    is_empty-append (c ∷ s) t full = refl

trim_left-append :
    (h rest : Bytes)
    → All (λ c. is_space c ≡ false) h
    → trim_left (h ++ (47 ∷ rest)) ≡ h ++ (47 ∷ rest)
unfolding trim_left is_space
trim_left-append [] rest a = refl
trim_left-append (c ∷ h) rest a = rw a.0 refl

replace_first-Lacks : (k : ℕ) (new s : Bytes) → Lacks k s → replace_first s (k ∷ []) new ≡ s
unfolding replace_first has_prefix
replace_first-Lacks k new [] l = refl
replace_first-Lacks k new (c ∷ s) l = rw (l.0, replace_first-Lacks k new s l.1) refl

replace_first-append :
    (k : ℕ) (new h rest : Bytes)
    → (k == k) ≡ true
    → Lacks k h
    → replace_first (h ++ (k ∷ rest)) (k ∷ []) new ≡ h ++ (new ++ rest)
unfolding replace_first has_prefix
replace_first-append k new [] rest same l = rw same refl
replace_first-append k new (c ∷ h) rest same l =
    rw (l.0, replace_first-append k new h rest same l.1) refl

longer_differs : (c : ℕ) (x suffix : Bytes) → bytes_eq (c ∷ (x ++ suffix)) suffix ≡ false
longer_differs c x suffix = elim (Bool-cases (bytes_eq (c ∷ (x ++ suffix)) suffix)) [
  | inl e ↦
      let same = ap (λ (s : Bytes). length s) ((bytes_eq_iff (c ∷ (x ++ suffix)) suffix).0 e) in
      let l = length-append x suffix in absurd (omega (arith, same, l))
  | inr e ↦ e
]

trim_suffix-append :
    (x suffix : Bytes)
    → bytes_eq suffix suffix ≡ true
    → is_empty suffix ≡ false
    → trim_suffix (x ++ suffix) suffix ≡ x
unfolding trim_suffix
trim_suffix-append [] [] same full = refl
trim_suffix-append [] (c ∷ suffix) same full = rw same refl
trim_suffix-append (c ∷ x) suffix same full =
    rw (longer_differs c x suffix, trim_suffix-append x suffix same full) refl

trim_right_cons :
    (c : ℕ) (s : Bytes) → is_space c ≡ false → trim_right s ≡ s → trim_right (c ∷ s) ≡ c ∷ s
unfolding trim_right is_space
trim_right_cons c [] blank h = rw blank refl
trim_right_cons c (x ∷ s) blank h = rw h refl

Lacks-append : (k : ℕ) (s t : Bytes) → Lacks k s → Lacks k t → Lacks k (s ++ t)
Lacks-append k [] t ls lt = lt
Lacks-append k (c ∷ s) t ls lt = (ls.0, Lacks-append k s t ls.1 lt)

module _ (host path : Bytes) (plain : IsPlain host path) where
  not_https : has_prefix (host ++ (47 ∷ path)) (codes "https://") ≡ false
  not_https =
      has_prefix-Lacks 58 (codes "https") (codes "//") host path refl
        (refl, (refl, (refl, (refl, (refl, tt))))) plain.no_colon

  not_http : has_prefix (host ++ (47 ∷ path)) (codes "http://") ≡ false
  not_http =
      has_prefix-Lacks 58 (codes "http") (codes "//") host path refl
        (refl, (refl, (refl, (refl, tt)))) plain.no_colon

  not_git : has_prefix (host ++ (47 ∷ path)) (codes "git://") ≡ false
  not_git =
      has_prefix-Lacks 58 (codes "git") (codes "//") host path refl (refl, (refl, (refl, tt)))
        plain.no_colon

  not_ssh : has_prefix (host ++ (47 ∷ path)) (codes "ssh://") ≡ false
  not_ssh =
      has_prefix-Lacks 58 (codes "ssh") (codes "//") host path refl (refl, (refl, (refl, tt)))
        plain.no_colon

  not_git_user : has_prefix (host ++ (47 ∷ path)) (codes "git@") ≡ false
  not_git_user =
      has_prefix-Lacks 64 (codes "git") [] host path refl (refl, (refl, (refl, tt))) plain.no_at

  -- With the schemes and the user taken off.
  stripped :
      (scheme : Scheme)
      → without_git_user (without_scheme (written scheme host path)) ≡ host ++ (47 ∷ path)
  unfolding without_scheme without_git_user trim_prefix has_prefix
  stripped https_scheme = rw (not_http, not_git, not_ssh, not_git_user) refl
  stripped http_scheme = rw (not_git, not_ssh, not_git_user) refl
  stripped git_scheme = rw (not_ssh, not_git_user) refl
  stripped ssh_scheme =
      replace_first-Lacks 58 (47 ∷ []) _
        (Lacks-append 58 host (47 ∷ path) plain.no_colon (refl, plain.path_no_colon))
  stripped no_scheme = rw (not_https, not_http, not_git, not_ssh, not_git_user) refl
  stripped scp_scheme = replace_first-append 58 (47 ∷ []) host path refl plain.no_colon

  path_end : (c : ℕ) → is_space c ≡ false → trim_right (c ∷ path) ≡ c ∷ path
  path_end c blank = trim_right_cons c path blank plain.path_trimmed

  trimmed : (scheme : Scheme) → trim_space (written scheme host path) ≡ written scheme host path
  unfolding trim_space trim_left is_space
  trimmed https_scheme = trim_right-append (codes "https://" ++ host) _ refl (path_end 47 refl)
  trimmed http_scheme = trim_right-append (codes "http://" ++ host) _ refl (path_end 47 refl)
  trimmed git_scheme = trim_right-append (codes "git://" ++ host) _ refl (path_end 47 refl)
  trimmed ssh_scheme = trim_right-append (codes "ssh://git@" ++ host) _ refl (path_end 47 refl)
  trimmed no_scheme =
      ap trim_right (trim_left-append host path plain.no_blank)
      ∙ trim_right-append host _ refl (path_end 47 refl)
  trimmed scp_scheme = trim_right-append (codes "git@" ++ host) _ refl (path_end 58 refl)

  written_full : (scheme : Scheme) → is_empty (written scheme host path) ≡ false
  written_full https_scheme = refl
  written_full http_scheme = refl
  written_full git_scheme = refl
  written_full ssh_scheme = refl
  written_full scp_scheme = refl
  written_full no_scheme = by_host host
    where
      by_host : (h : Bytes) → is_empty (h ++ (47 ∷ path)) ≡ false
      by_host [] = refl
      by_host (c ∷ h) = refl

  normalized :
      (scheme : Scheme)
      → normalize_repo_url (written scheme host path)
        ≡ trim_suffix
            (replace_first (trim_suffix (host ++ (47 ∷ path)) (codes ".git")) raw_host github_host)
            (47 ∷ [])
  unfolding normalize_repo_url
  normalized scheme = rw (written_full scheme, trimmed scheme, stripped scheme) refl

-- The spelling may end in `.git`.
abbrev pub ending : Bool → Bytes
ending true = codes ".git"
ending false = []

abbrev pub spelled : Scheme → Bool → Bytes → Bytes → Bytes
spelled scheme suffixed host path = written scheme host (path ++ ending suffixed)

-- Host and path, with the host of raw files as that of the repository, less a slash at the end.
abbrev pub canonical : Bytes → Bytes → Bytes
canonical host path =
    trim_suffix (replace_first (host ++ (47 ∷ path)) raw_host github_host) (47 ∷ [])

suffixed-IsPlain :
    (host path : Bytes) (suffixed : Bool)
    → IsPlain host path
    → IsPlain host (path ++ ending suffixed)
unfolding trim_right is_space
suffixed-IsPlain host path true plain = record {
  no_blank = plain.no_blank;
  no_colon = plain.no_colon;
  no_at = plain.no_at;
  path_no_colon =
      Lacks-append 58 path (codes ".git") plain.path_no_colon (refl, (refl, (refl, (refl, tt))));
  path_trimmed = trim_right-append path (codes ".git") refl refl;
}
suffixed-IsPlain host path false plain = subst (IsPlain host) (sym (append-nil path)) plain

-- A repository whose host has no blank, colon or at sign, and whose path has no colon, no blank at its end and
-- does not end in `.git`: all its spellings, with https, http, git, ssh and a user, without a scheme or in the form of scp, and with
-- or without `.git`, have one normal form, so any two of them match.
pub match_repo_url-spelled :
    (host path : Bytes) (scheme other : Scheme) (suffixed other_suffixed : Bool)
    → IsPlain host path
    → trim_suffix (host ++ (47 ∷ path)) (codes ".git") ≡ host ++ (47 ∷ path)
    → (normalize_repo_url (spelled scheme suffixed host path) ≡ canonical host path)
      × (match_repo_url (spelled scheme suffixed host path) (spelled other other_suffixed host path)
          ≡ true)
unfolding match_repo_url
match_repo_url-spelled host path scheme other suffixed other_suffixed plain bare = (
  normal scheme suffixed,
  (bytes_eq_iff _ _).1 (normal scheme suffixed ∙ sym (normal other other_suffixed)),
)
  where
    unsuffixed :
        (b : Bool)
        → trim_suffix (host ++ (47 ∷ (path ++ ending b))) (codes ".git") ≡ host ++ (47 ∷ path)
    unsuffixed true =
        ap (λ u. trim_suffix u (codes ".git")) (sym (append_assoc host (47 ∷ path) (codes ".git")))
        ∙ trim_suffix-append (host ++ (47 ∷ path)) (codes ".git") refl refl
    unsuffixed false =
        ap (λ p. trim_suffix (host ++ (47 ∷ p)) (codes ".git")) (append-nil path) ∙ bare

    normal :
        (s : Scheme) (b : Bool) → normalize_repo_url (spelled s b host path) ≡ canonical host path
    normal s b =
        normalized host (path ++ ending b) (suffixed-IsPlain host path b plain) s
        ∙ ap (λ u. trim_suffix (replace_first u raw_host github_host) (47 ∷ [])) (unsuffixed b)
