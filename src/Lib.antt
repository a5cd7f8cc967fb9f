-- ===== src/Lib.antt =====
-- swarmline: a library for running teams of language-model agents. This development models the parts
-- of it that decide: who may take which task, which tool may be called, how much may be spent, when
-- a plan or a verification is finished, and what a pipeline returns when a stage fails.
--
-- The parts and the files:
--   TaskBoard (swarmline/multi_agent/graph_task_board.py): `InMemoryGraphTaskBoard`, a dictionary of
--     hierarchical tasks and a list of comments. A method is a function from a board to its answer
--     and the next board: each holds the lock throughout. TaskBoard/Links is about parent links,
--     Claims about who holds a task, Propagation about `_propagate_parent`, Completion about
--     `complete_task`, Query about what the board answers, Subtree, Descendants and Least about the
--     breadth-first search of a subtree, Parents and Reach about sequences of calls. GraphTask and
--     GraphTask/Shared (graph_task_types.py, graph_task_board_shared.py) hold the task type and its
--     payloads, TaskTypes the statuses.
--   TaskQueue (swarmline/multi_agent/task_queue.py): `InMemoryTaskQueue`; get, complete and cancel
--     are `get_item`, `complete` and `cancel_item`.
--   GoalQueue (swarmline/multi_agent/goal_queue.py): the queue of goals, and in GoalQueue/Fifo the
--     abstract queue of the ids that wait.
--   Registry (swarmline/multi_agent/agent_registry.py): the agents by id.
--   Governance (swarmline/multi_agent/graph_governance.py, graph_types.py): the checks before an agent
--     hires or delegates; Governance/Chains is about several hires in a row.
--   Circuit (swarmline/resilience/circuit_breaker.py): the breaker and its registry.
--   Plan (swarmline/orchestration/types.py), with Plan/Codec and Plan/Store
--     (swarmline/orchestration/plan_store.py): plans, their steps as dictionaries, the store.
--   Dod (swarmline/orchestration/dod_state_machine.py): loops of verification.
--   Budget (swarmline/pipeline/budget.py) and Budget/Partition
--     (swarmline/pipeline/partitioned_budget.py): costs against limits. A call of a wrapped runner is
--     `check_run` before its await and `after_run` after it; Budget/Runs lets calls overlap. The
--     trackers of partitions are objects that are handed out by reference.
--   Policy (swarmline/policy/tool_policy.py) and Policy/Selector (swarmline/policy/tool_selector.py):
--     which tools may be called, and which are offered.
--   Dataflow (swarmline/pipeline/dataflow_core.py, dataflow_engine.py): the sequential executor, and
--     in Dataflow/Stages (swarmline/pipeline/stages) the runners of typed, guard, conditional, loop,
--     parallel and fan-out stages. Retries, Reviews, Joins and Keys are about what they return.
--   Phases and Phases/Runner (swarmline/pipeline/pipeline.py, gate.py, types.py): pipelines of phases
--     with gates and the tracker of Budget; `run` is `run_goal`. Phases/Settled and
--     Phases/Trails are about the results.
--     Equality of phases, which `list.index` uses, is a parameter.
--   AgentGraph (swarmline/multi_agent/graph_store.py): the tree of agents, with its queries in
--     AgentGraph/Query. Search is about `_collect_subtree_ids`, here `collect_subtree_ids`, Removal,
--     Trees, Updates and Changes about what keeps the tree.
--   Workflow (swarmline/orchestration/workflow_graph.py): graphs, and in Workflow/Execute their
--     execution; a round of the `while` loop of `execute` is `round`.
--   Hooks (swarmline/hooks/registry.py) and Hooks/Dispatch (swarmline/hooks/dispatcher.py): the hooks
--     of an agent and what they decide; Hooks/Merging is about registries that are merged.
--   Scheduler (swarmline/daemon/scheduler.py): periodic and one-shot tasks; `_tick` is `tick`, and a
--     round of `run_until` is `poll`.
--   Memory (swarmline/memory/inmemory.py): the memory provider that keeps everything in the process.
--   Compaction (swarmline/compaction.py): the filter that makes a conversation fit a token budget.
--   ToolBudget (swarmline/policy/tool_budget.py) and Retry (swarmline/retry.py): the calls of a turn,
--     and the schedule of retries.
--   Base: dictionaries as association lists in insertion order, JSON values, lists, Boolean tests, and
--     lemmas on them. Examples: runs at concrete inputs.
-- All of them are under src/ of the repository. The board's statuses are those of the queue; the
-- partitioned budget uses the tracker and the nodes of Governance the registry's statuses; conditional
-- stages run the sequential executor and the graph of agents holds the nodes of Governance;
-- otherwise the parts do not call one another.
--
-- Conventions. An exception is a value: `none`, or a constructor that names it. Times, fresh ids and
-- what the verifier, the runners and the codec answer are arguments. Money and percentages are
-- natural numbers, so a sum of costs is exact here where Python rounds. `Float`, `Any`, `Value`,
-- `Context`, `Tool`, `Node`, `Coro`, `Callback` and `Datetime` are type parameters: the code only
-- passes such values on. Where calls run concurrently (`gather`), how each of them ends is an
-- argument, and so is the context that they leave. A method under a lock, or without an await, is
-- one step.
--
-- Fuel. `walk_parents`, `propagate_parent` and `climb_goals` follow parent links with a set of
-- visited keys and have fuel for two rounds more than there are keys. A round that goes on marks a
-- key of the board that was not marked before, so the fuel is enough. `collect` has fuel for two
-- rounds more than there are tasks: a round takes one id off the queue, and an id is put into it
-- at most once.
--
-- `collect` of the agent graph takes one node off its queue in a round, and no node is put into it
-- twice, so as many rounds as there are nodes are enough. `rounds` of a workflow has fuel that the
-- caller gives: loop limits bound the rounds, and without them a workflow need not end. The
-- attempts of a typed stage and the iterations of a loop stage are counted down from their maximum.
--
-- Not modelled: the SQL, Redis and NATS backends, model providers, sandboxes, HTTP and the command
-- line, which are input and output; the logging of messages; negative limits of
-- the tool selector; the artifacts and messages of a pipeline context; exceptions of an event sink;
-- changes that a node of a workflow makes to the state in place; the shutdown of the scheduler.
pub mod AgentGraph
pub mod Base
pub mod Budget
pub mod Circuit
pub mod Compaction
pub mod Dataflow
pub mod Dod
pub mod Examples
pub mod GoalQueue
pub mod Governance
pub mod GraphTask
pub mod Hooks
pub mod Memory
pub mod Phases
pub mod Plan
pub mod Policy
pub mod Registry
pub mod Retry
pub mod Scheduler
pub mod TaskBoard
pub mod TaskQueue
pub mod TaskTypes
pub mod ToolBudget
pub mod Workflow
