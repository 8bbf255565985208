-- ===== src/Lib.antt =====
-- SkillUp, a platform of NestJS services: the users service and what it shares with the others.
--
-- The parts, and the files that model them:
--   * Services: what is called and not implemented here, Redis, PostgreSQL behind TypeORM, bcrypt,
--     SHA-256 and JSON web tokens, as parameters, with the documented behaviour that the code
--     relies on in `IsRedis`, `IsDatabase` and Session/Sets `IsSortedSets`. Services/Memory holds
--     one instance of them.
--   * Effects: an asynchronous method as a function from the shared state to a result with a state;
--     each external call takes a Boolean that says whether it rejects, and a rejected call changes
--     nothing. Effects/Transaction is the try, catch and finally round a database transaction.
--   * Shared: the entities and enums of libs/shared/entities/src and libs/shared/enums/src.
--   * Session: `saveSessionWithEviction` of libs/shared/redis/src/redis.service.ts with its Lua
--     script, which Redis runs as one step.
--   * Users/Login: `login` of apps/users-service/src/providers/login.provider.ts.
--   * Users/Register: `createUser` of apps/users-service/src/providers/register.provider.ts.
--   * Users/Resend: `sendVerificationCode` of
--     apps/users-service/src/providers/verification-code.provider.ts.
--   * Users/Verify: `verifyAccount` of apps/users-service/src/providers/verify-account.provider.ts.
--   * Outbox: `processOutboxMessages` and `prunePublishedMessages` of
--     apps/users-service/src/outbox/outbox.worker.ts.
--   * RateLimit: the guard of apps/api-gateway/src/common/guards/ip-rate-limit.guard.ts.
--   * Gateway: how the `catch` clauses of login.provider.ts, account-verification.provider.ts and
--     verification-code.provider.ts in apps/api-gateway/src/users/providers reply to an error of the
--     users service, which names the seconds to wait behind its message.
--   * Gateway/Files: file-query.provider.ts and upload-url.provider.ts of
--     apps/api-gateway/src/media/providers; Gateway/Registration: `register` of
--     apps/api-gateway/src/users/providers/registration.provider.ts, which calls the media service
--     and `createUser`.
--   * Media: apps/media-service/src, with MinIO and sharp as parameters and their documented
--     behaviour in `IsObjectStore` and `IsSharp`; Media itself is storage/minio.service.ts,
--     Media/Files media.service.ts, Media/Consumer consumers/media-consumer.service.ts, Media/Image
--     processors/image-processor.service.ts, Media/Cleanup storage/temp-cleanup.service.ts, and
--     Media/Memory one instance of the parameters.
--     Media/Startup is the start-up of storage/minio.service.ts, with the policy of the bucket.
--   * Redis: the other methods of libs/shared/redis/src/redis.service.ts that do more than hand a
--     command on, and `retryStrategy` of redis.module.ts beside it.
--   * Users/Queries: apps/users-service/src/providers/user-query.provider.ts.
--   * Broker: `publishEvent` of libs/shared/rabbitmq/src/event-publisher.service.ts;
--     Broker/Publications what the outbox worker hands it, Broker/Routing the bindings of both
--     consumers on the topic exchange, whose matching is a parameter (`IsTopic`).
--   * Notifications: apps/notifications-service/src/mail/mail.service.ts with Handlebars, the files and
--     the SMTP server as parameters; Notifications/Consumer the callback of
--     consumers/notification-consumer.service.ts; Notifications/Journey the way from a registration
--     through its event and its mail to the activation.
--   * Gateway/Http, Gateway/Auth: libs/shared/common/src/filters/all-exceptions.filter.ts and
--     apps/api-gateway/src/users/auth.controller.ts with the answers of its providers; what Nest keeps
--     in an exception is a parameter (`IsNest`).
--   * Values: JavaScript objects, as the publisher, the mails and the filter handle them.
--   * Uploads: the life of an uploaded photo as Redis keeps it, a contract that the media service,
--     the gateway and the users service share, and sequences of registrations.
--   * Base, Text: helpers; a text is the list of its character codes.
--   * Tests: the theorems at concrete inputs.
--
-- The providers write users, sessions, counters and outbox messages; the worker reads the messages
-- and sends them to the exchange, from which the media service takes the photos to process. The gateway
-- reads and writes the status of an upload in the same Redis as the users service. The notifications
-- service takes the codes from the exchange and mails them.
--
-- Choices: the clock stands still during a request, so no key expires while it runs, and the time is
-- an argument. Random values are arguments (`Fresh`, `Draw`). Lower case is that of ASCII. No loop needs
-- fuel but the printing of a numeral, whose fuel is the number and one, which exceeds its digits.
-- Log lines are left out. A registration passes the transformations of its photo on unread, and they
-- are left out of it; a crop is in natural numbers, as the DTO of the registration checks it. A call
-- that gRPC loses is lost before it reaches its service. The listing of expired uploads is what its
-- stream gives before it ends or fails. An image whose metadata sharp could read is taken to be one that
-- it can encode (`IsSharp`). The guard of apps/api-gateway's rate limit (RateLimit) is modelled by
-- itself: the handlers of Gateway/Auth are what runs behind it, for a request that it lets through.
--
-- Not modelled: the password and profile placeholders of the users service, which answer and do
-- nothing, the controllers and facades that only delegate, the rules of class-validator on the DTOs
-- but those of the photo's key and of the code, the logging interceptor, and the wiring of modules, transport and
-- persistence, which the services hand to their libraries. The booking, catalog and payment services
-- are scaffolds without handlers.
pub mod Base
pub mod Text
pub mod Shared
pub mod Services
pub mod Effects
pub mod Session
pub mod Users
pub mod Outbox
pub mod RateLimit
pub mod Gateway
pub mod Tests
pub mod Media
pub mod Uploads
pub mod Redis
pub mod Values
pub mod Broker
pub mod Notifications
