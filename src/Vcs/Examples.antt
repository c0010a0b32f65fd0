-- ===== src/Vcs/Examples.antt =====
-- URLs of repositories, normalized.
use reactorcide.Prelude.{◌≡◌, refl, true, false, codes}
use reactorcide.Vcs.Urls.{normalize_repo_url, match_repo_url}
use reactorcide.Vcs.Normal.{
  IsPlain, ssh_scheme, scp_scheme, spelled, canonical, match_repo_url-spelled,
}
use reactorcide.Prelude.{is_space, trim_right, has_prefix}
use reactorcide.Vcs.Urls.{trim_suffix}

scp_form : normalize_repo_url (codes " git@github.com:org/repo.git") ≡ codes "github.com/org/repo"
unfolding normalize_repo_url is_space has_prefix
scp_form = refl

raw_form :
    match_repo_url
      (codes "https://raw.githubusercontent.com/org/repo/")
      (codes "github.com/org/repo")
    ≡ true
unfolding match_repo_url is_space has_prefix
raw_form = refl

-- A slash after the suffix keeps the suffix.
suffix_before_slash :
    match_repo_url (codes "https://github.com/org/repo.git/") (codes "https://github.com/org/repo")
    ≡ false
unfolding match_repo_url is_space has_prefix
suffix_before_slash = refl

github-IsPlain : IsPlain (codes "github.com") (codes "org/repo")
unfolding is_space trim_right
github-IsPlain = record {
  no_blank = (refl, (refl, (refl, (refl, (refl, (refl, (refl, (refl, (refl, (refl, tt))))))))));
  no_colon = (refl, (refl, (refl, (refl, (refl, (refl, (refl, (refl, (refl, (refl, tt))))))))));
  no_at = (refl, (refl, (refl, (refl, (refl, (refl, (refl, (refl, (refl, (refl, tt))))))))));
  path_no_colon = (refl, (refl, (refl, (refl, (refl, (refl, (refl, (refl, tt))))))));
  path_trimmed = refl;
}

github_is_bare :
    trim_suffix (codes "github.com/org/repo") (codes ".git") ≡ codes "github.com/org/repo"
unfolding trim_suffix
github_is_bare = refl

match_repo_url-spelled_example :
    (normalize_repo_url (spelled scp_scheme true (codes "github.com") (codes "org/repo"))
      ≡ canonical (codes "github.com") (codes "org/repo"))
    × (match_repo_url
          (spelled scp_scheme true (codes "github.com") (codes "org/repo"))
          (spelled ssh_scheme false (codes "github.com") (codes "org/repo"))
        ≡ true)
match_repo_url-spelled_example =
    match_repo_url-spelled (codes "github.com") (codes "org/repo") scp_scheme ssh_scheme true false
      github-IsPlain github_is_bare
