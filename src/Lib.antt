-- ===== src/Lib.antt =====
-- babeltrader is a gateway between clients and the trading interfaces of several markets. A program
-- for each interface and each of quotes and trades links the common code of src/common with one
-- handler (src/ctp-quotes, src/ctp-trade, src/xtp-quotes, src/xtp-trade). The handler turns the
-- callbacks of the interface into the structs of src/common/common_struct.h; the services write
-- these as JSON texts to the clients, and read the clients' requests.
--
-- The files and what they model:
--   Common      names shared by all: tests, lists, texts as bytes, integers, `double` as a parameter,
--               `std::map` as the list of its entries, calls that throw.
--   Structs     src/common/common_struct.h, every struct of quotes, trades and accounts.
--   Enum        src/common/enum.h, enum.cpp: the tables of texts and `GET_ENUM_BY_STR`.
--   Utils       src/common/utils_func.h, utils_func.cpp.
--   Kline       src/common/kline_builder.h, kline_builder.cpp: `KlineBuilder`.
--   QueryCache  src/common/query_cache.h, query_cache.cpp: who waits for the answer to which query.
--   Json        the calls of a `rapidjson::Writer` and of a `rapidjson::Value`: which calls of the
--               first spell one JSON text (Json.Grammar), with numbers that it cannot write
--               (Json.Numbers), and the second as a record of operations (Json.Reader).
--   Converter   src/common/converter.h, converter.cpp: `Serialize…` as the calls of the writer
--               (Orders, Queries, Accounts, Quotes), `Convert…Json2Common` (Requests),
--               `SplitOrderDir` (OrderDir).
--   TradeService  src/common/trade_service.h, trade_service.cpp: the messages (Messages) and the
--               handlers of requests (Handlers).
--   QuoteService  src/common/quote_service.h, quote_service.cpp: the blocks in the tunnel and the
--               batches of `AsyncLoop`.
--   WsService   src/common/ws_service.h, ws_service.cpp: the clients, the tunnel of their messages,
--               `Dispatch` and its errors.
--   HttpService  src/common/http_service.h, http_service.cpp: requests about topics.
--   CtpQuotes   src/ctp-quotes/ctp_quote_handler.h, ctp_quote_handler.cpp, conf.h: the subscriptions
--               and ticks of `CTPQuoteHandler`, with the fields of a tick in Depth; Connection has the
--               login and the days of the ticks, Logs what the handler logs; Subscribed, Requests
--               and Days hold their laws.
--   CtpTrade    src/ctp-trade/ctp_trade_handler.h, ctp_trade_handler.cpp, conf.h: `CTPTradeHandler`.
--               The ids and the maps by which it finds the order that an answer is about are in
--               CtpTrade itself (Ids and Orders for their laws); Directions converts
--               directions and flags, with pointers of eight bytes. Fields has the interface's
--               structs, Logs what the handler logs, Handler its members and the calls it makes.
--               Asked makes the requests and Answered reads the answers. Trading has the operations
--               on orders (Kept, Meanwhile, Notices and Life for their laws), Querying the queries, with
--               the answers that come row by row (Answers; Kinds and Rows for their law), Session the
--               connection (Retries for the attempts to log in). Running is the step relation of the whole
--               handler (Invariant, Orders, Queries and Valid for what holds in it).
--   XtpQuotes   src/xtp-quotes/xtp_quote_handler.h, xtp_quote_handler.cpp, conf.h: `XTPQuoteHandler`.
--               Topics has the topics and the calls for them, Fields the interface's structs, Convert
--               their conversions, Logs what the handler logs; Exchanges, Subscribed and Running
--               hold the invariant of the whole handler.
-- The names are the source's in this language's spelling: `KlineBuilder::updateMarketData` is
-- `update_market_data`, and a function that changes members takes the state and gives it back, with
-- what it calls of other libraries.
--
-- How the values are modelled:
--   * `double` is a record `Double` of a type and its operations; what IEEE 754 says of `<` between
--     numbers is a hypothesis, `Ordered`. The instances use whole numbers.
--   * An `int64_t` is an integer without a bound: the code adds and multiplies dates and counts only.
--     So are the counters of requests and orders, which begin at 1 and are counted up.
--     A text is the list of its bytes up to the NUL. A pointer to a client is a number.
--   * A read behind the end of an array or a table, or a text that does not fit its buffer, is `none`.
--   * Each loop of the code is a recursion on the list that it goes through, so that no fuel is
--     needed. The endless loops `AsyncLoop` and `MessageLoop` are modelled by their turns, the loop of
--     `XTPQuoteHandler::Reconn` by what each `Login` in it returns.
--   * A history is a sequence of whole calls that do not overlap, and of the two halves of a thread
--     that logs in again, before and behind its sleep. The orders that wait, the clients, the topics
--     and the cache of queries are under locks; the orders under their ids at the exchange belong to
--     the thread of `AsyncLoop`, the rows of an answer to that of the callbacks. The members
--     `req_id_`, `order_ref_`, `order_action_ref_` and `req_login_cnt_`, `api_ready_` and the ids of
--     the session are used without a lock by several threads, and what becomes of them when two of
--     these calls overlap is not modelled.
--   * An assertion of rapidjson that fails aborts the program: `none` of `handle` and of
--     `on_rest_subunsub`. A text in a JSON text is any bytes, whether they are UTF-8 or not.
--   * An operation of the trade handler ends with a state and the calls it made, with an exception,
--     with `exit`, or undefined, where the code follows a null pointer or reads a value never set.
--
-- Not modelled: the libraries (uWS, rapidjson, glog, muggle, the interfaces of CTP and XTP), whose
-- values and answers are arguments; printing, and the order in which the threads' logs come out; what
-- RunAPI and RunService start; reading the configuration and `main`; the XTP trade handler; the
-- programs in Go and the demos; a build with `ENABLE_PERFORMANCE_TEST`.
pub mod Common
pub mod Structs
pub mod CtpTrade
pub mod Enum
pub mod Utils
pub mod HttpService
pub mod Json
pub mod Converter
pub mod CtpQuotes
pub mod TradeService
pub mod Kline
pub mod QueryCache
pub mod QuoteService
pub mod WsService
pub mod XtpQuotes
