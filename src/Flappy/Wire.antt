-- ===== src/Flappy/Wire.antt =====
-- internal/protocol/snapshot.go and message.go: the frames. Their JSON is not modelled: a frame is
-- the value that is marshalled.
use hmlb.Prelude.{ℕ, Bool, List, Text, Option}
use hmlb.Flappy.Birds.{Bird}
use hmlb.Flappy.Theme.{Theme}

pub data RaceState : Type 0 where
  waiting countdown racing finished : RaceState

pub record BirdSnap (A : Type 0) : Type 0 where
  pub id : ℕ
  pub name : Text
  pub y : A
  pub vy : A
  pub score : ℕ
  pub dead : Bool
  pub left : Bool
  pub flap : Bool
  pub pal : ℕ
  pub acc : ℕ

pub record PipeSnap (A : Type 0) : Type 0 where
  pub id : ℕ
  pub x : A
  pub g : A
  pub h : A

pub record ResultSnap : Type 0 where
  pub id : ℕ
  pub name : Text
  pub score : ℕ
  pub rank : ℕ
  pub left : Bool

pub record Snapshot (A : Type 0) : Type 0 where
  pub now : ℕ
  pub tick : ℕ
  pub st : RaceState
  pub go_at : ℕ
  pub theme : Theme
  pub seed : ℕ
  pub dist : A
  pub wait : ℕ
  pub birds : List (BirdSnap A)
  pub pipes : List (PipeSnap A)
  pub res : List ResultSnap

pub record WelcomeMsg : Type 0 where
  pub you : ℕ
  pub name : Text
  pub bird : Bird
  pub now : ℕ
  pub st : RaceState
  pub go_at : ℕ
  pub theme : Theme
  pub seed : ℕ
  pub spect : Bool

pub data Frame (A : Type 0) : Type 0 where
  welcome : WelcomeMsg → Frame A
  snapshot : Snapshot A → Frame A
  error : Text → Frame A

-- The all-time leaderboard's row. `none` is the zero time.
pub record TopEntry : Type 0 where
  pub name : Text
  pub score : ℕ
  pub theme : Text
  pub at : Option ℕ
