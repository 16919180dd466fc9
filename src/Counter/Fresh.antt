-- ===== src/Counter/Fresh.antt =====
-- What the counter of kernel/src/counter.rs shows.
use r_os.Common.{ℕ, ◌/◌, ◌≡◌, Option, some, List, All}
use r_os.Shell.Edit.{IsPrintable}
use r_os.Fb.Text.{Font}
use r_os.Format.{Text}
use r_os.Format.Decimal.{IsDecimal}
use r_os.Wm.Api.{Globals}
use r_os.Wm.Session.{Call, run}
use r_os.Counter.{display}

-- The screens behind a refresh: the calls that show the decimal numerals of the ticks and of the
-- ticks divided by 18, made on the screens before.
abbrev pub IsShown : Font → (List ℕ → Option (List ℕ)) → ℕ → ℕ → Globals → Globals → Type 0
IsShown font from_utf8 win ticks g g' =
    (s : List ℕ) × (s2 : List ℕ) × IsDecimal ticks s
    × IsDecimal (ticks / 18) s2
    × (run font from_utf8 (display win s s2) g ≡ some g')

module _ (font : Font) (from_utf8 : List ℕ → Option (List ℕ))
    (decodes : (bytes : List ℕ) → All IsPrintable bytes → from_utf8 bytes ≡ some bytes) where
  abbrev IsRefresh : ℕ → ℕ → List Call → Type 0
  IsRefresh win ticks calls =
      (s : List ℕ) × (s2 : List ℕ) × IsDecimal ticks s
      × IsDecimal (ticks / 18) s2
      × (calls ≡ display win s s2)
