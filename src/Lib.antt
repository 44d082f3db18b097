-- ===== src/Lib.antt =====
-- Verification of the SOMA benchmark: the proxy between an agent and its model, the compression
-- service that runs a miner's compressor, the broker that executes an agent's commands in the task's
-- container, the grading of a patch, and the runner around them.
--
-- The agent's requests go through the proxy (src/compression_service/app/proxy.py). It keeps the
-- prompts that the compressor may not touch, hands the rest of the body to the compression service,
-- answers the service calls that come back in place of a result, restores the prompts, translates
-- between the Anthropic and the OpenAI format, and tallies tokens.
--   Proxy/Prompts: _strip_protected_prompts, _restore_protected_prompts, and rewrite_body for the
--     steps of proxy_passthrough around the compressor, which is a parameter.
--   Proxy/Calls, Proxy/Services: _ServiceBudget, _run_service_round and the loop of
--     _transform_payload_via_compression_service. The compressor is a function from the results of the
--     rounds so far to its next reply; the result of a service call and both tests of the deadline are
--     parameters.
--   Proxy/Transform: JEV_OFFER and a whole _transform_payload_via_compression_service, with the posts to
--     the compression service as parameters.
--   Proxy/Passthrough: proxy_passthrough as a function of a request to what is sent upstream and the
--     answer; the compression service is a parameter, as is the upstream. Proxy/TaskContext:
--     _task_context. Proxy/Upstream: _build_upstream_url, the filters of headers,
--     _service_auth_headers and _execute_jev_call.
--   Proxy/Routing: the settings from the environment, as a function, and the compression service that a
--     run is routed to. Proxy/Reports: health and _emit_message_event.
--   Proxy/Dispatch: _is_anthropic_messages_request.
--   Proxy/Messages, Proxy/Request, Proxy/Tools, Proxy/Body: _text_of, _tool_result_text, _assistant_message,
--     _user_messages, _group_same_role, _openai_tools, _openai_tool_choice and
--     _anthropic_request_to_openai.
--   Proxy/Response, Proxy/Reply: _reasoning_of, _anthropic_content_blocks and
--     _openai_response_to_anthropic.
--   Proxy/Assembly, Proxy/Emit, Proxy/Translation: _assemble_openai_stream, _anthropic_sse_events and
--     _translate_event_stream. Proxy/Emit/Client is a client that follows the protocol of the events,
--     and Proxy/Assembly/Fragments a reading of a stream as a whole: the descriptions that the code is
--     compared with.
--   Proxy/Usage, Proxy/Ledger: _sse_usage_fields, _merge_sse_usage, _scan_sse_chunk_for_usage, the loop
--     of _relay_event_stream, _accumulate_token_usage and _extract_usage_from_response.
-- The compression service is src/compression_service/app/main.py; the miner's side of the service calls
-- is services.py beside it, and base_miner.py is a miner that changes nothing.
--   Compressor/App: one call of a compressor, whose module is a parameter: its signature, and its
--     result together with what it leaves in the list of messages that it is given.
--   Compressor/Handlers: the two handlers over the store and the lock of the compressor's calls, for one
--     request at a time and up to one that waits for the lock, with the miner's thread as a function from
--     the results so far to its next turn. Compressor/Handlers/View is the abstract service: the one
--     suspended miner, if there is one.
--   Compressor/Events: what is logged, and the health check.
--   Compressor/Client, Compressor/BaseMiner: Services, _Jev and the base miner.
--   Compressor/Rounds: Services._round, with the counter of ids as its state.
--   Compressor/Sessions: Session as a state with the steps of the miner's thread and of the HTTP
--     handlers.
--   Compressor/Store: SessionStore on an association list.
-- The broker is src/soma_bench/benchmark/backends/copilot/copilot-cli-container/swe_exec_broker.py.
--   Broker/Buffer: _CappedBuffer. Broker/Stream: _read_exec_output, on the list of its reads, each with
--     whether the deadline has passed. Broker/Exec: _wait_for_exit_code and exec_command, on a record of
--     the daemon's answers. Broker/Handler: BrokerHandler.
-- Grading is src/soma_bench/benchmark/soma_task_eval.py.
--   Grading/Report: _normalize_test_ids and _outcomes_from_report. Grading/Verdict: _bucket and the
--     verdict. Grading/Diff: the filter of a patch. Grading/Evaluation: maybe_run_soma_task_evaluation as
--     a result and the docker commands that were run, on a record of their return codes.
-- The runner is src/soma_bench/benchmark.
--   Runner/Execution: execution.py, with the order in which the workers finish as an argument.
--   Runner/Summary: summarize_results of eval_infer.py.
--   Runner/Dispatch: main of src/soma_bench/__main__.py, after the parsing of its arguments.
-- Base has what they share: JSON values, dicts, integers, texts, and lists measured by native numbers.
--
-- An exception is `none` or a constructor of a result type. Bytes and code points are native numbers.
-- Fuel: Broker/Stream gives its inner loop the length of the buffer, of which every frame takes eight
-- bytes or more; Broker/Exec polls forty times, as the source does; Proxy/Services gives the loop twice
-- the limit of rounds, at which the source raises.
--
-- json.loads, json.dumps, str, int and float of a string, urlsplit, urlunsplit, the decompressors, uuid4
-- and the Docker daemon are parameters. Not modelled: sockets, processes and files, the texts of error
-- messages and the log lines of service calls, argument parsing, the settings of the benchmark, the agent
-- backends, the building of images and the import of a miner's module.
pub mod Base
pub mod Broker
pub mod Compressor
pub mod Grading
pub mod Proxy
pub mod Runner
