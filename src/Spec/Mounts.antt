-- ===== src/Spec/Mounts.antt =====
-- The mount lists of core/controller/c/core/spec.c (strim_ffmpeg_mounts, strim_mediamtx_mounts),
-- with an out array that is not NULL.
use strimserver.Prelude.{
  ℕ, ◌≡◌, ◌≤◌, Bool, true, false, Option, none, some, List, [], ◌∷◌, ltb, if◌then◌else◌, length,
}
use strimserver.Spec.{path_max, clip, cut_root, join_path, chars, Layout}

-- strim_mount
pub record Mount : Type 0 where
  pub source : List ℕ
  pub destination : List ℕ
  pub read_write : Bool

-- A negative code, or the mounts, whose number is the result.
pub data MountResult : Type 0 where
  null_argument too_small : MountResult
  mounted : List Mount → MountResult

unfoldable pub with_mount :
    Option (List ℕ) → (destination : List ℕ) → Bool → Option (List Mount) → Option (List Mount)
with_mount none destination read_write rest = none
with_mount (some source) destination read_write none = none
with_mount (some source) destination read_write (some rest) =
    some (record { source = source; destination = destination; read_write = read_write } ∷ rest)

-- A NULL source is refused before the room is looked at.
unfoldable pub fill : Option (List Mount) → (count n_cap : ℕ) → MountResult
fill none count n_cap = null_argument
fill (some mounts) count n_cap = if ltb n_cap count then too_small else mounted mounts

unfoldable pub ffmpeg_mounts : Layout → ℕ → MountResult
unfolding with_mount fill
ffmpeg_mounts layout n_cap =
    let tmp = with_mount layout.tmp (chars "/tmp") true (some []) in
    let resolv_conf = with_mount layout.resolv_conf (chars "/etc/resolv.conf") false tmp in
    let transcode = with_mount layout.transcode (chars "/transcode.sh") false resolv_conf in
    fill (with_mount layout.env (chars "/strimserver.env") false transcode) 4 n_cap

unfoldable pub mediamtx_mounts : Layout → ℕ → MountResult
unfolding with_mount fill
mediamtx_mounts layout n_cap =
    let tmp = with_mount layout.tmp (chars "/tmp") true (some []) in
    let video_dir = with_mount layout.video_dir (chars "/video-files") true tmp in
    let srt_pass =
      with_mount layout.srt_pass (chars "/run/secrets/srt-passphrase") false video_dir in
    let notify = with_mount layout.notify (chars "/notify") false srt_pass in
    let template = with_mount layout.mediamtx_tmpl (chars "/mediamtx.yaml.template") false notify in
    fill (with_mount layout.env (chars "/strimserver.env") false template) 6 n_cap

-- A place of the host, and where the container sees it.
pub record Place : Type 0 where
  pub on_host : List ℕ
  pub inside : List ℕ

-- Where a container can write to the host.
abbrev pub writable : List Mount → List Place
writable [] = []
writable (m ∷ rest) =
    let others = writable rest in
    if m.read_write then record { on_host = m.source; inside = m.destination } ∷ others else others

-- The host's /tmp, and the directory of the videos under a host root.
abbrev pub tmp_place : Place
tmp_place = record { on_host = chars "/tmp"; inside = chars "/tmp" }

abbrev pub video_place : (root : List ℕ) → Place
video_place root = record {
  on_host = join_path path_max root (chars "video-files");
  inside = chars "/video-files";
}

-- The host root as it is used: by default /mnt/nvme, and without slashes at its end.
unfoldable pub used_root : Option (List ℕ) → List ℕ
used_root none = chars "/mnt/nvme"
used_root (some []) = chars "/mnt/nvme"
used_root (some (c ∷ s)) = cut_root (clip path_max (c ∷ s))

-- The mounts are handed out, fit the array, and let the container write there and nowhere else.
pub record IsMounted (result : MountResult) (n_cap : ℕ) (places : List Place) : Type 0 where
  pub mounts : List Mount
  pub given : result ≡ mounted mounts
  pub fit : length mounts ≤ n_cap
  pub confined : writable mounts ≡ places

abbrev Both : Layout → (root : List ℕ) → ℕ → Type 0
Both layout root n_cap =
    IsMounted (ffmpeg_mounts layout n_cap) n_cap (tmp_place ∷ [])
    × IsMounted (mediamtx_mounts layout n_cap) n_cap (video_place root ∷ tmp_place ∷ [])

-- A mount whose source is given.
abbrev kept : Option (List ℕ) → List ℕ → Bool → Mount
kept none destination read_write = record {
  source = [];
  destination = destination;
  read_write = read_write;
}
kept (some source) destination read_write = record {
  source = source;
  destination = destination;
  read_write = read_write;
}
