-- ===== src/Observations/Note.antt =====
-- observation_service.py: a note as it is checked, stored and returned. The words that the code keeps
-- as texts are constructors, as only these are let in.
use pika_pika.Prelude.{Option}
use pika_pika.Prelude.Int.{ℤ}
use pika_pika.Text.{Text}

pub data Kind : Type 0 where
  lights tv both : Kind

pub data TvCount : Type 0 where
  one several unsure : TvCount

pub data SameMoment : Type 0 where
  together unsure : SameMoment

pub data TvSource : Type 0 where
  internal external mixed unsure : TvSource

pub data Recovery : Type 0 where
  av_continue reboot : Recovery

-- What a note on a television adds.
pub record Picture (W : Type 0) : Type 0 where
  pub tv_count : TvCount
  pub same_moment : Option SameMoment
  pub tv_source : TvSource
  pub blank_s : W
  pub recovery : Recovery

-- The dictionary that `_validate` returns; `picture` is `none` where it returns early.
pub record Entry (W : Type 0) : Type 0 where
  pub observed_at_ns : ℤ
  pub kind : Kind
  pub pika_location : Text
  pub note : Text
  pub picture : Option (Picture W)
