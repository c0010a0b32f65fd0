-- ===== src/Vcs/Urls.antt =====
-- vcs/url_normalization.go, on texts of code points.
use reactorcide.Prelude.{
  ◌++◌, [], ◌∷◌, Bool, if◌then◌else◌, Bytes, codes, bytes_eq, is_empty, has_prefix, trim_space,
  length, drop,
}

-- `strings.TrimPrefix`
unfoldable pub trim_prefix : Bytes → Bytes → Bytes
unfolding has_prefix
trim_prefix s prefix = if has_prefix s prefix then drop (length prefix) s else s

-- `strings.TrimSuffix`
unfoldable pub trim_suffix : Bytes → Bytes → Bytes
trim_suffix [] suffix = []
trim_suffix (c ∷ s) suffix =
    let rest = trim_suffix s suffix in if bytes_eq (c ∷ s) suffix then [] else c ∷ rest

-- `strings.Replace` of the first place, for a text that is not empty.
unfoldable pub replace_first : Bytes → Bytes → Bytes → Bytes
unfolding has_prefix
replace_first [] old new = []
replace_first (c ∷ s) old new =
    let rest = replace_first s old new in
    if has_prefix (c ∷ s) old then new ++ drop (length old) (c ∷ s) else c ∷ rest

abbrev pub raw_host : Bytes
raw_host = codes "raw.githubusercontent.com"

abbrev pub github_host : Bytes
github_host = codes "github.com"

-- A leading `git@` goes, and the first colon becomes a slash.
unfoldable pub without_git_user : Bytes → Bytes
unfolding trim_prefix replace_first
without_git_user url =
    if has_prefix url (codes "git@")
    then replace_first (trim_prefix url (codes "git@")) (58 ∷ []) (47 ∷ [])
    else url

unfoldable pub without_scheme : Bytes → Bytes
unfolding trim_prefix
without_scheme url =
    trim_prefix
      (trim_prefix (trim_prefix (trim_prefix url (codes "https://")) (codes "http://"))
        (codes "git://"))
      (codes "ssh://")

unfoldable pub normalize_repo_url : Bytes → Bytes
unfolding trim_space without_scheme without_git_user trim_suffix replace_first
normalize_repo_url raw_url =
    if is_empty raw_url
    then []
    else trim_suffix
        (replace_first
          (trim_suffix (without_git_user (without_scheme (trim_space raw_url))) (codes ".git"))
          raw_host github_host)
        (47 ∷ [])

unfoldable pub match_repo_url : Bytes → Bytes → Bool
unfolding normalize_repo_url
match_repo_url url1 url2 = bytes_eq (normalize_repo_url url1) (normalize_repo_url url2)
