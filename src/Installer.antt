-- ===== src/Installer.antt =====
-- tools/t630_installer.py: the order in which the host entry point runs its guarded tools.
-- A tool is a separate program; whether it succeeds is an argument, `run_tool` stops at the first
-- failure, and the tools that were started are the result.
mod Gates
mod Scenarios
use ubuntu_install_on_samsun.Prelude.{
  String, Bool, not, ◌&&◌, ◌||◌, Option, none, some, List, [], ◌∷◌, ◌++◌, if◌then◌else◌, Result, ok,
  err,
}

-- What `run_tool` is called with: the tool, and its arguments where they depend on the command line.
pub data Tool : Type 0 where
  verify_bundle stage_bundle : String → Tool
  stage_bundle_local : String → Tool
  prepare_staged_install authorize_staged_install : Tool

pub data UsageError : Type 0 where
  verify_needs_bundle verify_excludes_install acknowledge_without_install : UsageError
  install_needs_acknowledge staged_needs_action prepare_on_host : UsageError

pub data Ending : Type 0 where
  usage : UsageError → Ending
  assertion_failed tool_unsafe tool_failed : Ending
  bundle_verified installation_verified gate_passed bundle_staged : Ending

pub record Options : Type 0 where
  pub host_bundle : Option String
  pub tablet_bundle : Option String
  pub staged : Bool
  pub verify_only : Bool
  pub prepare : Bool
  pub install : Bool
  pub acknowledge_stock_recovery : Bool

-- How a part of the call ended, beside the tools that it started, oldest first.
abbrev pub Workflow : Type 0 → Type 0
Workflow A = Result Ending A × List Tool

infixl 5 ◌>>◌
abbrev pub ◌>>◌ : {B : Type 0} → Workflow (Unit {0}) → Workflow B → Workflow B
(ok _, started) >> (r, more) = (r, started ++ more)
(err e, started) >> _ = (err e, started)

abbrev raise_when : Bool → UsageError → Workflow (Unit {0})
raise_when test e = (if test then err (usage e) else ok tt, [])

abbrev finish : Ending → Workflow Ending
finish ending = (ok ending, [])

-- `present`: the tool is a regular file of the tools folder; `succeeds`: it exits with status 0.
module _ (present succeeds : Tool → Bool) where
  pub run_tool : Tool → Workflow (Unit {0})
  run_tool tool =
      if present tool
      then (if succeeds tool then ok tt else err tool_failed, tool ∷ [])
      else (err tool_unsafe, [])

  verify_bundle_only : Options → Option String → Workflow Ending
  unfolding run_tool
  verify_bundle_only o none = (err (usage verify_needs_bundle), [])
  verify_bundle_only o (some bundle) =
      raise_when (o.prepare || o.install || o.acknowledge_stock_recovery) verify_excludes_install
      >> run_tool (verify_bundle bundle)
      >> finish bundle_verified

  prepare_when : Bool → Workflow (Unit {0})
  unfolding run_tool
  prepare_when test = if test then run_tool prepare_staged_install else (ok tt, [])

  -- The branches on where the bundle comes from.
  stage_staged : Options → Workflow (Unit {0})
  unfolding prepare_when
  stage_staged o =
      raise_when (not o.prepare && not o.install) staged_needs_action >> prepare_when o.prepare

  stage_local : Options → Option String → Workflow (Unit {0})
  unfolding run_tool prepare_when
  stage_local o none = (err assertion_failed, [])
  stage_local o (some bundle) =
      run_tool (stage_bundle_local bundle) >> prepare_when (o.prepare || o.install)

  stage_host : Options → Option String → Workflow (Unit {0})
  unfolding run_tool stage_local
  stage_host o (some bundle) =
      raise_when o.prepare prepare_on_host >> run_tool (stage_bundle bundle)
  stage_host o none = stage_local o o.tablet_bundle

  stage : Options → Workflow (Unit {0})
  unfolding stage_staged stage_host
  stage o = if o.staged then stage_staged o else stage_host o o.host_bundle

  authorize : Options → Workflow Ending
  unfolding run_tool
  authorize o =
      if o.install
      then run_tool authorize_staged_install >> finish installation_verified
      else finish (if o.prepare then gate_passed else bundle_staged)

  install_workflow : Options → Workflow Ending
  unfolding stage authorize
  install_workflow o =
      raise_when (o.acknowledge_stock_recovery && not o.install) acknowledge_without_install
      >> raise_when (o.install && not o.acknowledge_stock_recovery) install_needs_acknowledge
      >> stage o
      >> authorize o

  pub workflow : Options → Workflow Ending
  unfolding verify_bundle_only install_workflow
  workflow o = if o.verify_only then verify_bundle_only o o.host_bundle else install_workflow o
