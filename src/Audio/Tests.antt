-- ===== src/Audio/Tests.antt =====
-- audio/audio.cpp: playback on small lists, and devices.
use mocf.Base.{
  ℕ, ◌≡◌, refl, inr, Bool, true, false, Option, none, some, List, [], ◌∷◌, Text, arith, ◌>>=◌,
}
use mocf.Base.Int.{pos}
use mocf.SearchTree.{insert}
use mocf.SearchTree.Bytewise.{bytewise}
use mocf.Playlist.Data.{sound, Plist, Host, empty_plist, minus_one}
use mocf.Playlist.Search.{plist_find_fname}
use mocf.Playlist.Edit.{plist_add, new_item}
use mocf.Playlist.Join.{IsGood, empty-IsGood}
use mocf.Playlist.Live.{plist_add-IsGood}
use mocf.Audio.Data.{Options, Audio, start}
use mocf.Audio.Go.{go_to_another_file}
use mocf.Audio.Control.{thread_steps, audio_stop, audio_play}
use mocf.Audio.Lists.{audio_plist_set_time, audio_get_ftime}
use mocf.Audio.Sound.{IsSound, empty-AreDistinct}
use mocf.Audio.Timed.{audio_plist_set_time-audio_get_ftime}
use mocf.Audio.Going.{Gone}
use mocf.Audio.Another.{go_to_another_file-Gone}
use mocf.Audio.Stopping.{IsWell, IsStopped, audio_stop-IsStopped}
use mocf.Audio.Runs.{Op, run_ops, run_ops-IsWell}
use mocf.Audio.InOrder.{auto_next_only}
use mocf.Audio.AllPlayed.{HasPlayed, loaded, audio_play-HasPlayed}
use mocf.Audio.Format.{
  Format, s8, s16, s32, Sfmt, FormatMask, sfmt_best_matching, sound_format_ok, prefs, first_of,
}
use mocf.Audio.BestFormat.{IsCheapest, sfmt_best_matching-IsCheapest}
use mocf.Audio.Device.{
  SoundParams, no_params, OutputDriverCaps, Hardware, RateOptions, Device, output_rate, clamp,
  multiple_rate, audio_open,
}
use mocf.Audio.OutputRate.{IsClamped, output_rate-IsClamped}
use mocf.Audio.DeviceState.{IsConsistent, CanServe, audio_open-IsConsistent}

abbrev host : Host
host = record {
  collation = bytewise;
  file_type = λ f. sound;
  get_mtime = λ f. pos 5;
  can_read_file = λ f. true;
}

abbrev rand : ℕ → ℕ → ℕ
rand n i = n

abbrev a : Text
a = b'a' ∷ []

abbrev b : Text
b = b'b' ∷ []

-- A playlist of one file.
abbrev one : Plist
one = record {
  not_deleted = 1;
  items = new_item host (some a) ∷ [];
  total_time = pos 0;
  items_with_time = pos 0;
  search_tree = (a, 0) ∷ [];
}

one-IsGood : IsGood host one
unfolding plist_add insert
one-IsGood = plist_add-IsGood host empty_plist a (empty-IsGood host) (λ i it g present. cc)

one-IsSound : IsSound host (loaded one)
one-IsSound = record {
  playlist_good = one-IsGood;
  playlist_named = refl;
  shuffled_good = empty-IsGood host;
  shuffled_named = refl;
  shuffled_distinct = empty-AreDistinct host;
  covers = λ lt. absurd (omega arith);
  queue_good = empty-IsGood host;
  queue_named = refl;
}

one-IsWell : IsWell host (loaded one)
one-IsWell = record { sound = one-IsSound; listed = (refl, refl); running = refl }

abbrev options : Options
options = auto_next_only true

abbrev ops : List Op
ops =
    Op.plist_add a
    ∷ Op.plist_add b
    ∷ Op.queue_add b
    ∷ Op.play options []
    ∷ Op.thread options
    ∷ Op.thread options
    ∷ Op.thread options
    ∷ Op.next
    ∷ Op.plist_delete a
    ∷ Op.thread options
    ∷ Op.stop options
    ∷ []

run_ops-IsWell_example : (s : Audio) × (run_ops host rand ops start ≡ some s) × IsWell host s
run_ops-IsWell_example = run_ops-IsWell host rand ops refl

audio_play-HasPlayed_example : HasPlayed (loaded one) (a ∷ []) (
    audio_play host rand (auto_next_only true) [] (loaded one)
    >>= thread_steps host rand (auto_next_only true) 5)
audio_play-HasPlayed_example = audio_play-HasPlayed host rand true one one-IsGood refl

go_to_another_file-Gone_example :
    Gone host options none false (go_to_another_file host rand options (loaded one))
go_to_another_file-Gone_example = go_to_another_file-Gone host rand options (loaded one) one-IsSound

audio_stop-IsStopped_example :
    (s : Audio) × (audio_stop host rand options (loaded one) ≡ some s) × IsStopped host s
audio_stop-IsStopped_example = audio_stop-IsStopped host rand options (loaded one) one-IsWell

audio_plist_set_time-audio_get_ftime_example :
    (found : Option ℕ) × (q : Plist) × (plist_find_fname host one a ≡ some found)
    × (audio_plist_set_time host a (pos 60) (loaded one) ≡ some (loaded q))
    × IsSound host (loaded q)
    × (audio_get_ftime host a (loaded q) ≡ some (elim found [ none ↦ minus_one | some i ↦ pos 60 ]))
audio_plist_set_time-audio_get_ftime_example =
    audio_plist_set_time-audio_get_ftime host (loaded one) a (pos 60) one-IsSound

-- A driver with two formats.
abbrev has_format : Format → Bool
has_format s8 = true
has_format s32 = true
has_format _ = false

abbrev mask : FormatMask
mask = record { formats = has_format; le = true; be = false }

abbrev sixteen : Sfmt
sixteen = record { format = s16; le = true; be = false }

chosen : sfmt_best_matching mask sixteen ≡ some (record { format = s32; le = true; be = false })
unfolding sfmt_best_matching prefs first_of
chosen = refl

sfmt_best_matching-IsCheapest_example :
    (best : Sfmt) × (sfmt_best_matching mask sixteen ≡ some best)
    × IsCheapest mask s16 best.format
    × (sound_format_ok best ≡ true)
sfmt_best_matching-IsCheapest_example = sfmt_best_matching-IsCheapest mask sixteen s8 refl refl

abbrev caps : OutputDriverCaps
caps = record {
  min_channels = 1;
  max_channels = 2;
  formats = mask;
  min_rate = 8000;
  max_rate = 48000;
}

output_rate-IsClamped_example :
    (r : ℕ) × (output_rate (record { max_samplerate = 0; enable_resample = 1 }) caps 96000 ≡ some r)
    × IsClamped 96000 8000 48000 r
output_rate-IsClamped_example = output_rate-IsClamped 0 caps 96000 (omega arith) (omega arith)

doubled : output_rate (record { max_samplerate = 0; enable_resample = 1 }) caps 6000 ≡ some 12000
unfolding output_rate clamp multiple_rate
doubled = refl

abbrev hardware : Hardware
hardware = record {
  caps = caps;
  hw_open = λ p. (true, p);
  get_rate = λ p. p.rate;
  converts = λ p q. true;
}

abbrev rate_options : RateOptions
rate_options = record { max_samplerate = 0; enable_resample = 1 }

abbrev request : SoundParams
request = record { channels = 2; rate = 44100; fmt = some sixteen }

abbrev closed : Device
closed = record {
  audio_opened = false;
  req_sound_params = no_params;
  driver_sound_params = no_params;
  last_params = no_params;
  driver_bpf = 0;
  driver_bps = 0;
  need_audio_conversion = false;
}

can_serve : CanServe hardware rate_options request
can_serve = record {
  fmt = sixteen;
  has_fmt = refl;
  proper = refl;
  available = s8;
  is_available = refl;
  some_order = refl;
  forced = λ e. cc;
  resampled = λ e. (omega arith, omega arith);
  has_channels = omega arith;
}

audio_open-IsConsistent_example :
    (ok : Bool) × (d : Device) × (audio_open hardware rate_options (some request) closed
      ≡ some (ok, d))
    × IsConsistent d
    × (d.audio_opened ≡ ok)
audio_open-IsConsistent_example =
    audio_open-IsConsistent hardware rate_options (some request) closed
      (inr (refl, (refl, refl, refl))) can_serve
